-- ===== src/Api/Consistency.antt =====
-- What creating and deleting a ban by hand does to the store.
use sipreaper.Common.{
  ℕ, ◌*◌, ◌/◌, Bool-cases, Option-cases, ◌≡◌, ◌≢◌, refl, ◌⊎◌, inl, inr, Bool, true, false, ◌++◌, [],
  Option, none, some, arith, Text, codes, text_eq, length,
}
use sipreaper.Api.{
  Server, Site, Reply, success, failure, store_failure, CreateBanRequest, Clock, Answers, guards,
  manual_entry, requested, call_ban, apply_ban, insert_ban, create_free, create_for,
  handle_create_ban, delete_found, handle_delete_ban,
}
use sipreaper.Models.{BanEntry}
use sipreaper.Net.Parse.{parse_ip}
use sipreaper.Net.{Ip, ip_string}
use sipreaper.Store.Bans.{
  IsConsistent, open_bans, lookup_cases, create_ban-IsConsistent, update_ban_status-IsConsistent,
  get_active_ban-none, get_active_ban-update,
}
use sipreaper.Store.{Store, ok, get_active_ban_by_ip, create_ban, update_ban_status, second}

abbrev pub is_success : {A : Type 0} → Reply A → Bool
is_success (success code a) = true
is_success (failure code t) = false
is_success store_failure = false

module _ {W : Type 0} (srv : Server W) (a : Answers) (c : Clock) (st : Site W) where
  -- A request changes nothing and reports a failure, or it is for a free address.
  create_cases {ℓ} :
      (P : Site W × Reply BanEntry → Type ℓ) (body : Option CreateBanRequest)
      → ((reply : Reply BanEntry) → is_success reply ≡ false → P (st, reply))
      → ((req : CreateBanRequest) (ip : Ip) (dur : ℕ)
          → body ≡ some req
          → parse_ip req.ip ≡ some ip
          → requested srv.parse_duration req.duration ≡ some dur
          → guards srv.is_whitelisted ip ≡ false
          → length (open_bans (ip_string ip) st.store) ≡ 0
          → P (insert_ban srv a c st ip dur))
      → P (handle_create_ban srv a c st body)
  unfolding handle_create_ban create_for create_free
  create_cases P none refused go = refused _ refl
  create_cases P (some req) refused go = elim (Option-cases (parse_ip req.ip)) [
    | inl bad ↦ rw (handle_create_ban, bad) (refused _ refl)
    | inr (ip, parsed) ↦ rw (handle_create_ban, parsed) (for_ip ip parsed)
  ]
    where
      free :
          (ip : Ip)
          → parse_ip req.ip ≡ some ip
          → guards srv.is_whitelisted ip ≡ false
          → length (open_bans (ip_string ip) st.store) ≡ 0
          → P (create_free srv a c st ip req.duration)
      free ip text black none_open =
          elim (Option-cases (requested srv.parse_duration req.duration)) [
            | inl bad ↦ rw (create_free, bad) (refused _ refl)
            | inr (dur, parsed) ↦
                rw (create_free, parsed) (go req ip dur refl text parsed black none_open)
          ]

      for_ip : (ip : Ip) → parse_ip req.ip ≡ some ip → P (create_for srv a c st ip req.duration)
      for_ip ip text = elim (Bool-cases (guards srv.is_whitelisted ip)) [
        | inl white ↦ rw (create_for, white) (refused _ refl)
        | inr black ↦
            elim (lookup_cases (get_active_ban_by_ip a.lookup_up st.store (ip_string ip))) [
              | inl down ↦ rw (create_for, black, down) (refused _ refl)
              | inr (inl nothing) ↦
                  rw (create_for, black, nothing)
                    (free ip text black
                      (get_active_ban-none a.lookup_up st.store (ip_string ip) nothing))
              | inr (inr (b, found)) ↦ rw (create_for, black, found) (refused _ refl)
            ]
      ]

  insert_ban_down :
      (ip : Ip) (dur : ℕ) → a.create_up ≡ false → insert_ban srv a c st ip dur ≡ (st, store_failure)
  unfolding insert_ban create_ban
  insert_ban_down ip dur down = ground arith

  abbrev stored : Ip → ℕ → Store
  stored ip dur = (create_ban true st.store (manual_entry c ip dur)).0

  abbrev ban_call : Ip → ℕ → W × Option Text
  ban_call ip dur = call_ban srv.ban_fn st.world ip dur (codes "manual ban via API")

  insert_ban_done :
      (ip : Ip) (dur : ℕ)
      → a.create_up ≡ true
      → (ban_call ip dur).1 ≡ none
      → insert_ban srv a c st ip dur ≡ (
        record { world = (ban_call ip dur).0; store = stored ip dur },
        success 201 (record (manual_entry c ip dur) { id = st.store.next_ban }),
      )
  unfolding insert_ban create_ban apply_ban
  insert_ban_done ip dur up fine = ground arith

  insert_ban_refused :
      (ip : Ip) (dur : ℕ) {e : Text}
      → a.create_up ≡ true
      → (ban_call ip dur).1 ≡ some e
      → insert_ban srv a c st ip dur ≡ (
        record {
          world = (ban_call ip dur).0;
          store =
              (update_ban_status a.update_up (stored ip dur) st.store.next_ban (codes "expired")).0;
        },
        failure 500 (codes "ban was not applied by enforcer: " ++ e),
      )
  unfolding insert_ban create_ban apply_ban
  insert_ban_refused ip dur up refused = ground arith

  insert_ban-IsConsistent :
      (ip : Ip) (dur : ℕ)
      → IsConsistent st.store
      → length (open_bans (ip_string ip) st.store) ≡ 0
      → IsConsistent (insert_ban srv a c st ip dur).0.store
  unfolding text_eq
  insert_ban-IsConsistent ip dur k free =
      let k' = create_ban-IsConsistent true st.store (manual_entry c ip dur) k free in
      elim (Bool-cases a.create_up) [
        | inr down ↦ rw (insert_ban_down ip dur down) k
        | inl up ↦ elim (Option-cases (ban_call ip dur).1) [
          | inl fine ↦ rw (insert_ban_done ip dur up fine) k'
          | inr (e, refused) ↦ rw (insert_ban_refused ip dur up refused) (
              update_ban_status-IsConsistent a.update_up (stored ip dur) st.store.next_ban
                (codes "expired") refl k')
        ]
      ]

  -- A ban by hand never gives an address a second open ban, whatever the database and the
  -- enforcer answer.
  pub handle_create_ban-IsConsistent :
      (body : Option CreateBanRequest)
      → IsConsistent st.store
      → IsConsistent (handle_create_ban srv a c st body).0.store
  handle_create_ban-IsConsistent body k =
      create_cases (λ p. IsConsistent p.0.store) body (λ reply no. k)
        (λ req ip dur same text timed black free. insert_ban-IsConsistent ip dur k free)

  -- The ban of a request has been made.
  pub record Created (body : Option CreateBanRequest) (p : Site W × Reply BanEntry) : Type 0 where
    pub request : CreateBanRequest
    pub ip : Ip
    pub duration : ℕ
    pub asked : body ≡ some request
    pub of_address : parse_ip request.ip ≡ some ip
    pub for_time :
        ((request.duration ≡ []) × (duration ≡ 0))
        ⊎ ((request.duration ≢ []) × (srv.parse_duration request.duration ≡ some duration))
    pub not_whitelisted : guards srv.is_whitelisted ip ≡ false
    pub was_free : length (open_bans (ip_string ip) st.store) ≡ 0
    pub taken : (ban_call ip duration).1 ≡ none
    pub reply : p.1 ≡ success 201 (record (manual_entry c ip duration) { id = st.store.next_ban })
    pub found :
        get_active_ban_by_ip true p.0.store (ip_string ip)
        ≡ ok (
            some (record (manual_entry c ip duration) {
              id = st.store.next_ban;
              duration = duration / second * second;
            }))

module _ {W : Type 0} (srv : Server W) (a : Answers) (st : Site W) where
  delete_found-store :
      (ip : Ip) (text : Text) (b : BanEntry)
      → is_success (delete_found srv a st ip text b).1 ≡ true
      → (delete_found srv a st ip text b).0.store
        ≡ (update_ban_status true st.store b.id (codes "expired")).0
  unfolding delete_found update_ban_status
  delete_found-store ip text b fine = ground (arith, fine)

  -- Where a request to delete a ban succeeds, its text is an address, which then has no open ban,
  -- if no address had two.
  pub handle_delete_ban-free :
      (text : Text)
      → IsConsistent st.store
      → is_success (handle_delete_ban srv a st text).1 ≡ true
      → (ip : Ip) × (parse_ip text ≡ some ip)
        × (get_active_ban_by_ip true (handle_delete_ban srv a st text).0.store (ip_string ip)
            ≡ ok none)
  unfolding handle_delete_ban
  handle_delete_ban-free text k fine = elim (Option-cases (parse_ip text)) [
    | inl bad ↦ absurd (ground (arith, bad, fine))
    | inr (ip, parsed) ↦ (ip, parsed, freed ip parsed)
  ]
    where
      freed :
          (ip : Ip)
          → parse_ip text ≡ some ip
          → get_active_ban_by_ip true (handle_delete_ban srv a st text).0.store (ip_string ip)
            ≡ ok none
      freed ip parsed =
          elim (lookup_cases (get_active_ban_by_ip a.lookup_up st.store (ip_string ip))) [
            | inl down ↦ absurd (ground (arith, parsed, down, fine))
            | inr (inl nothing) ↦ absurd (ground (arith, parsed, nothing, fine))
            | inr (inr (b, found)) ↦
                let done : is_success (delete_found srv a st ip text b).1 ≡ true =
                  ground (arith, parsed, found, fine) in
                rw (handle_delete_ban, parsed, found, delete_found-store ip text b done)
                  (get_active_ban-update a.lookup_up st.store (ip_string ip) b k found)
          ]
