-- ===== src/Banner/Outcome.antt =====
-- What an attempt to bring the XDP enforcer up leaves behind.
use sipreaper.Common.{
  ◌≡◌, refl, subst, sym, ap, ◌∙◌, ◌≢◌, ◌⊎◌, inl, inr, Bool-cases, Option-cases, true, List, [], ◌∷◌,
  ◌++◌, Option, none, some, Text, arith, codes,
}
use sipreaper.Banner.Attach.{
  load_text, AttachFlag, AttachError, LoadError, Mode, mode_name, Kernel, XdpEnforcer, is_foreign,
  schema_version, reload, unlink_pins, load_pinned, reconcile_load, attempts, attach_any,
  attach_with_fallback, init,
}

module _ {W : Type 0} (k : Kernel W) where
  -- The state `at` in which a flag's turn comes, if the first attempt is made in `w`: the flag that
  -- is configured; or with no preference the driver's, and the generic one once the driver's has
  -- failed for another reason than that a program is attached.
  abbrev pub Tried : Mode → W → AttachFlag → W → Type 0
  Tried mode w flag at =
      ((mode ≡ Mode.only flag) × (at ≡ w))
      ⊎ ((mode ≡ Mode.auto) × (flag ≡ AttachFlag.driver_mode) × (at ≡ w))
      ⊎ ((mode ≡ Mode.auto)
          × (flag ≡ AttachFlag.generic_mode)
          × ((t : Text) × ((k.attach w AttachFlag.driver_mode).1
                ≡ some (AttachError.attach_failed t))
              × (at ≡ (k.attach w AttachFlag.driver_mode).0)))

  -- The enforcer once it is attached.
  abbrev pub raised : XdpEnforcer → AttachFlag → XdpEnforcer
  raised e flag = record e { attached = true; cur_mode = mode_name flag }

  -- A flag whose turn came was accepted by the system.
  abbrev Accepted : Mode → W → XdpEnforcer → (W × XdpEnforcer) × Option Text → Type 0
  Accepted mode w e r =
      (flag : AttachFlag) × (at : W) × Tried mode w flag at
      × ((k.attach at flag).1 ≡ none)
      × (r ≡ (((k.attach at flag).0, raised e flag), none))

  -- The objects were loaded without an error and the maps marked with the version, then the
  -- system accepted an attachment, and nothing happened after it.
  abbrev pub Raised : XdpEnforcer → (W × XdpEnforcer) × Option Text → Type 0
  Raised e r =
      (wl : W) × ((k.load wl).1 ≡ none)
      × ((flag : AttachFlag) × (at : W) × Tried e.mode
            (k.put_schema_version (k.load wl).0 schema_version) flag at
          × ((k.attach at flag).1 ≡ none)
          × (r ≡ (((k.attach at flag).0, raised e flag), none)))

  -- An error is reported, and the enforcer is as it was.
  abbrev pub Refused : XdpEnforcer → (W × XdpEnforcer) × Option Text → Type 0
  Refused e r = (r.1 ≢ none) × (r.0.1 ≡ e)

  refused : (w : W) (e : XdpEnforcer) (t : Text) → Refused e ((w, e), some t)
  refused w e t = ((λ h. cc h), refl)

  -- An attempt is accepted, or finds another program, or the next one is made.
  attach_any-step :
      (last : Text) (w : W) (e : XdpEnforcer) (flag : AttachFlag) (flags : List AttachFlag)
      → (((k.attach w flag).1 ≡ none)
          × (attach_any k last w e (flag ∷ flags) ≡ (((k.attach w flag).0, raised e flag), none)))
        ⊎ Refused e (attach_any k last w e (flag ∷ flags))
        ⊎ ((t : Text) × ((k.attach w flag).1 ≡ some (AttachError.attach_failed t))
            × (attach_any k last w e (flag ∷ flags) ≡ attach_any k t (k.attach w flag).0 e flags))
  unfolding attach_any
  attach_any-step last w e flag flags = elim (Option-cases (k.attach w flag).1) [
    | inl fine ↦ inl (fine, rw (attach_any, fine) refl)
    | inr (AttachError.busy, taken) ↦ inr (inl (rw (attach_any, taken) ((λ h. cc h), refl)))
    | inr (AttachError.attach_failed t, failed) ↦
        inr (inr (t, failed, rw (attach_any, failed) refl))
  ]

  attach_any-none : (last : Text) (w : W) (e : XdpEnforcer) → Refused e (attach_any k last w e [])
  unfolding attach_any
  attach_any-none last w e = refused w e _

  attach_any-attempts :
      (mode : Mode) (w : W) (e : XdpEnforcer)
      → Accepted mode w e (attach_any k [] w e (attempts mode))
        ⊎ Refused e (attach_any k [] w e (attempts mode))
  attach_any-attempts (Mode.only flag) w e = elim (attach_any-step [] w e flag []) [
    | inl (fine, up) ↦ inl (flag, w, inl (refl, refl), fine, up)
    | inr (inl out) ↦ inr out
    | inr (inr (t, failed, next)) ↦
        inr (subst (Refused e) (sym next) (attach_any-none t (k.attach w flag).0 e))
  ]
  attach_any-attempts Mode.auto w e =
      let driver = AttachFlag.driver_mode in
      let generic = AttachFlag.generic_mode in
      let w1 = (k.attach w driver).0 in
      elim (attach_any-step [] w e driver (generic ∷ [])) [
        | inl (fine, up) ↦ inl (driver, w, inr (inl (refl, refl, refl)), fine, up)
        | inr (inl out) ↦ inr out
        | inr (inr (t, failed, next)) ↦ elim (attach_any-step t w1 e generic []) [
          | inl (fine, up) ↦
              inl (generic, w1, inr (inr (refl, refl, (t, failed, refl))), fine, next ∙ up)
          | inr (inl out) ↦ inr (subst (Refused e) (sym next) out)
          | inr (inr (t', failed', last)) ↦
              inr (
                subst (Refused e) (sym (next ∙ last))
                  (attach_any-none t' (k.attach w1 generic).0 e))
        ]
      ]

  -- An error, or the state after a load that went well.
  abbrev Loaded : W × Option Text → Type 0
  Loaded r = (r.1 ≢ none) ⊎ ((wl : W) × ((k.load wl).1 ≡ none) × (r.0 ≡ (k.load wl).0))

  reload-Loaded : (unlinking loading : Text) (w : W) → Loaded (reload k unlinking loading w)
  reload-Loaded unlinking loading w =
      let gone = unlink_pins k w in
      let again = k.load gone.0 in
      elim (Option-cases gone.1) [
        | inr (t, stuck) ↦
            let r : (reload k unlinking loading w).1 ≡ some (unlinking ++ t) =
              ground (arith, stuck) in
            inl (λ h. cc (r, h))
        | inl free ↦ elim (Option-cases again.1) [
          | inr (l, bad) ↦
              let r : (reload k unlinking loading w).1 ≡ some (loading ++ load_text l) =
                ground (arith, free, bad) in
              inl (λ h. cc (r, h))
          | inl fine ↦
              let r : reload k unlinking loading w ≡ (again.0, none) = ground (arith, free, fine) in
              inr (gone.0, fine, ap (λ x. x.0) r)
        ]
      ]

  load_pinned-Loaded : (w : W) → Loaded (load_pinned k w)
  unfolding load_pinned
  load_pinned-Loaded w = elim (Option-cases (k.load w).1) [
    | inl fine ↦ inr (w, fine, rw (load_pinned, fine) refl)
    | inr (LoadError.map_incompatible, other) ↦
        rw (load_pinned, other)
          (reload-Loaded (codes "xdp: unlink stale pins: ") (codes "xdp: load objects: ")
            (k.load w).0)
    | inr (LoadError.load_failed t, bad) ↦ inl (rw (load_pinned, bad) (λ h. cc h))
  ]

  -- An error, or the state after a load that went well and the mark of the version.
  abbrev Marked : W × Option Text → Type 0
  Marked r =
      (r.1 ≢ none)
      ⊎ ((wl : W) × ((k.load wl).1 ≡ none)
          × (r.0 ≡ k.put_schema_version (k.load wl).0 schema_version))

  marked :
      (r : W × Option Text)
      → Loaded r
      → r.1 ≡ none
      → Marked (k.put_schema_version r.0 schema_version, none)
  marked r (inl bad) fine = absurd (bad fine)
  marked r (inr (wl, up, same)) fine =
      inr (wl, up, ap (λ w. k.put_schema_version w schema_version) same)

  reconcile_load-Marked : (w : W) → Marked (reconcile_load k w)
  unfolding reconcile_load
  reconcile_load-Marked w =
      let w1 = (k.mkdir w).0 in
      let unlinking = codes "xdp: unlink schema-mismatched pins: " in
      let loading = codes "xdp: reload after schema bump: " in
      let w2 = (load_pinned k w1).0 in
      let again = reload k unlinking loading (k.close_objects w2) in
      elim (Option-cases (k.mkdir w).1) [
        | inr (t, bad) ↦ inl (rw (reconcile_load, bad) (λ h. cc h))
        | inl made ↦ elim (Option-cases (load_pinned k w1).1) [
          | inr (t, bad) ↦ inl (rw (reconcile_load, made, bad) (λ h. cc h))
          | inl fine ↦ elim (Bool-cases (is_foreign (k.schema_version w2))) [
            | inr own ↦
                rw (reconcile_load, made, fine, own)
                  (marked (load_pinned k w1) (load_pinned-Loaded w1) fine)
            | inl foreign ↦ elim (Option-cases again.1) [
              | inr (t, stuck) ↦ inl (rw (reconcile_load, made, fine, foreign, stuck) (λ h. cc h))
              | inl fresh ↦
                  rw (reconcile_load, made, fine, foreign, fresh)
                    (marked again (reload-Loaded unlinking loading (k.close_objects w2)) fresh)
            ]
          ]
        ]
      ]

  abbrev pub Outcome : XdpEnforcer → (W × XdpEnforcer) × Option Text → Type 0
  Outcome e r = Raised e r ⊎ Refused e r

  -- What `init` makes of an attempt to attach, after the load.
  abbrev finished : (W × XdpEnforcer) × Option Text → (W × XdpEnforcer) × Option Text
  finished r = elim r.1 [ some t ↦ ((k.close_objects r.0.0, r.0.1), some t) | none ↦ (r.0, none) ]

  finished-Outcome :
      (e : XdpEnforcer) (wl : W)
      → (k.load wl).1 ≡ none
      → (r : (W × XdpEnforcer) × Option Text)
      → Accepted e.mode (k.put_schema_version (k.load wl).0 schema_version) e r ⊎ Refused e r
      → Outcome e (finished r)
  finished-Outcome e wl fine r (inl (flag, at, turn, on, up)) =
      inl (wl, fine, (flag, at, turn, on, ap finished up))
  finished-Outcome e wl fine ((w, e'), none) (inr (wrong, same)) = absurd (wrong refl)
  finished-Outcome e wl fine ((w, e'), some t) (inr (wrong, same)) = inr ((λ h. cc h), same)

  mark :
      (w : W)
      → (reconcile_load k w).1 ≡ none
      → (wl : W) × ((k.load wl).1 ≡ none)
        × ((reconcile_load k w).0 ≡ k.put_schema_version (k.load wl).0 schema_version)
  mark w fine = elim (reconcile_load-Marked w) [ inl wrong ↦ absurd (wrong fine) | inr m ↦ m ]

  after_load :
      (w : W) (e : XdpEnforcer)
      → ((wl : W) × ((k.load wl).1 ≡ none)
          × (w ≡ k.put_schema_version (k.load wl).0 schema_version))
      → Outcome e (finished (attach_with_fallback k w e))
  unfolding attach_with_fallback
  after_load w e (wl, fine, same) =
      finished-Outcome e wl fine _
        (rw same (attach_any-attempts e.mode (k.put_schema_version (k.load wl).0 schema_version) e))

  -- Whatever the system answers, an attempt to bring XDP up without an error has loaded the objects
  -- without one, marked the maps with the version, and then had the system accept an attachment,
  -- its last act: in the configured mode; or, with no mode configured, in the driver's, or in the
  -- generic one after the driver's failed and not because a program is attached already. Any
  -- other attempt reports an error and leaves the enforcer as it was.
  pub init-Outcome : (w : W) (e : XdpEnforcer) → Outcome e (init k w e)
  unfolding init attach_with_fallback
  init-Outcome w e =
      let w1 = (k.write_probe w).0 in
      let w2 = (k.remove_memlock w1).0 in
      let w3 = (reconcile_load k w2).0 in
      elim (Option-cases (k.write_probe w).1) [
        | inr (t, bad) ↦ rw (init, bad) (inr (refused w1 e _))
        | inl writable ↦ elim (Option-cases (k.remove_memlock w1).1) [
          | inr (t, bad) ↦ rw (init, writable, bad) (inr (refused w2 e _))
          | inl free ↦ elim (Option-cases (reconcile_load k w2).1) [
            | inr (t, bad) ↦ rw (init, writable, free, bad) (inr (refused w3 e _))
            | inl loaded ↦ rw (init, writable, free, loaded) (after_load w3 e (mark w2 loaded))
          ]
        ]
      ]
