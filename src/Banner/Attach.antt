-- ===== src/Banner/Attach.antt =====
-- internal/banner/enforcer_linux.go: how the enforcer comes up: its mode, the pinned maps, and the
-- attachment to the interface.
use sipreaper.Common.{
  ℕ, ◌==◌, if◌then◌else◌, Bool, true, false, ◌&&◌, ◌||◌, not, List, [], ◌∷◌, ◌++◌, Option, none,
  some, Text, codes, text_eq,
}

-- `link.XDPAttachFlags`.
pub data AttachFlag : Type 0 where
  driver_mode : AttachFlag
  generic_mode : AttachFlag

-- The mode that is configured: automatic, or one flag.
pub data Mode : Type 0 where
  auto : Mode
  only : AttachFlag → Mode

unfoldable pub parse_mode : Text → Option Mode
unfolding text_eq
parse_mode mode =
    if text_eq mode [] || text_eq mode (codes "auto")
    then some Mode.auto
    else if text_eq mode (codes "native") || text_eq mode (codes "driver")
    then some (Mode.only AttachFlag.driver_mode)
    else if text_eq mode (codes "generic") || text_eq mode (codes "skb")
    then some (Mode.only AttachFlag.generic_mode)
    else none

abbrev pub mode_name : AttachFlag → Text
mode_name AttachFlag.driver_mode = codes "driver"
mode_name AttachFlag.generic_mode = codes "generic"

-- The errors that the code tells apart: of a load, of a removal, of an attachment.
pub data LoadError : Type 0 where
  map_incompatible : LoadError
  load_failed : Text → LoadError

pub data RemoveError : Type 0 where
  not_exist : RemoveError
  remove_failed : Text → RemoveError

pub data AttachError : Type 0 where
  busy : AttachError
  attach_failed : Text → AttachError

-- The calls of the system and of cilium/ebpf.
pub record Kernel (W : Type 0) : Type 0 where
  pub write_probe : W → W × Option Text
  pub remove_memlock : W → W × Option Text
  pub mkdir : W → W × Option Text
  pub load : W → W × Option LoadError
  pub close_objects : W → W
  pub read_dir : W → List Text × Option RemoveError
  pub remove : W → Text → W × Option RemoveError
  pub schema_version : W → Option ℕ
  pub put_schema_version : W → ℕ → W
  pub attach : W → AttachFlag → W × Option AttachError

pub record XdpEnforcer : Type 0 where
  pub mode : Mode
  pub attached : Bool
  pub cur_mode : Text

abbrev pub schema_version : ℕ
schema_version = 1

-- `NewXdpEnforcer`, of an interface that is there and up, or not.
unfoldable pub new_xdp_enforcer : Bool → Bool → Text → Option XdpEnforcer
unfolding parse_mode
new_xdp_enforcer found up mode =
    if not found then none else if not up then none else elim (parse_mode mode) [
      | none ↦ none
      | some m ↦ some (record { mode = m; attached = false; cur_mode = [] })
    ]

abbrev pub load_text : LoadError → Text
load_text LoadError.map_incompatible = codes "map incompatible"
load_text (LoadError.load_failed t) = t

-- Maps that another version wrote.
abbrev pub is_foreign : Option ℕ → Bool
is_foreign none = false
is_foreign (some v) = not (v == 0) && not (v == schema_version)

abbrev pub attempts : Mode → List AttachFlag
attempts Mode.auto = AttachFlag.driver_mode ∷ AttachFlag.generic_mode ∷ []
attempts (Mode.only flag) = flag ∷ []

module _ {W : Type 0} (k : Kernel W) where
  -- The loop of `unlinkPins`.
  unfoldable pub remove_all : W → List Text → W × Option Text
  remove_all w [] = (w, none)
  remove_all w (name ∷ names) =
      let (w', e) = k.remove w name in
      let rest = remove_all w' names in
      elim e [ some (RemoveError.remove_failed t) ↦ (w', some t) | _ ↦ rest ]

  unfoldable pub unlink_pins : W → W × Option Text
  unfolding remove_all
  unlink_pins w = elim (k.read_dir w).1 [
    | none ↦ remove_all w (k.read_dir w).0
    | some RemoveError.not_exist ↦ (w, none)
    | some (RemoveError.remove_failed t) ↦ (w, some t)
  ]

  -- A load, once more after the pins are gone.
  abbrev pub reload : Text → Text → W → W × Option Text
  reload unlinking loading w =
      let (w1, stuck) = unlink_pins w in
      let (w2, e) = k.load w1 in
      elim stuck [
        | some t ↦ (w1, some (unlinking ++ t))
        | none ↦ elim e [ none ↦ (w2, none) | some l ↦ (w2, some (loading ++ load_text l)) ]
      ]

  -- The first part of `reconcileLoad`: a pinned map of another layout is made anew.
  unfoldable pub load_pinned : W → W × Option Text
  unfolding unlink_pins
  load_pinned w =
      let (w1, e) = k.load w in
      elim e [
        | none ↦ (w1, none)
        | some LoadError.map_incompatible ↦
            reload (codes "xdp: unlink stale pins: ") (codes "xdp: load objects: ") w1
        | some (LoadError.load_failed t) ↦ (w1, some (codes "xdp: load objects: " ++ t))
      ]

  unfoldable pub reconcile_load : W → W × Option Text
  unfolding load_pinned unlink_pins
  reconcile_load w =
      let (w1, no_dir) = k.mkdir w in
      let (w2, e) = load_pinned w1 in
      let (w3, stuck) =
        reload (codes "xdp: unlink schema-mismatched pins: ")
          (codes "xdp: reload after schema bump: ") (k.close_objects w2) in
      elim no_dir [
        | some t ↦ (w1, some (codes "xdp: mkdir pin dir: " ++ t))
        | none ↦ elim e [
          | some t ↦ (w2, some t)
          | none ↦
              if is_foreign (k.schema_version w2)
              then elim stuck [
                | some t ↦ (w3, some t)
                | none ↦ (k.put_schema_version w3 schema_version, none)
              ]
              else (k.put_schema_version w2 schema_version, none)
        ]
      ]

  -- The loop of `attachWithFallback`, with the error of the attempt before.
  unfoldable pub attach_any :
      Text → W → XdpEnforcer → List AttachFlag → (W × XdpEnforcer) × Option Text
  attach_any last w e [] =
      ((w, e), some (codes "xdp: attach failed (tried native+generic): " ++ last))
  attach_any last w e (flag ∷ flags) =
      let (w1, refused) = k.attach w flag in
      elim refused [
        | none ↦ ((w1, record e { attached = true; cur_mode = mode_name flag }), none)
        | some AttachError.busy ↦
            ((w1, e), some (codes "xdp: another XDP program is already attached"))
        | some (AttachError.attach_failed t) ↦ attach_any t w1 e flags
      ]

  unfoldable pub attach_with_fallback : W → XdpEnforcer → (W × XdpEnforcer) × Option Text
  unfolding attach_any
  attach_with_fallback w e = attach_any [] w e (attempts e.mode)

  unfoldable pub init : W → XdpEnforcer → (W × XdpEnforcer) × Option Text
  unfolding reconcile_load attach_with_fallback
  init w e =
      let (w1, unwritable) = k.write_probe w in
      let (w2, locked) = k.remove_memlock w1 in
      let (w3, unloaded) = reconcile_load w2 in
      let (up, unattached) = attach_with_fallback w3 e in
      elim unwritable [
        | some t ↦ ((w1, e), some (codes "xdp: bpffs pin dir not writable: " ++ t))
        | none ↦ elim locked [
          | some t ↦ ((w2, e), some (codes "xdp: remove memlock: " ++ t))
          | none ↦ elim unloaded [
            | some t ↦ ((w3, e), some t)
            | none ↦ elim unattached [
              | some t ↦ ((k.close_objects up.0, up.1), some t)
              | none ↦ (up, none)
            ]
          ]
        ]
      ]
