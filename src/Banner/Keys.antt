-- ===== src/Banner/Keys.antt =====
-- Which addresses have which key: the tests of a sender against an address, without the keys.
use sipreaper.Common.{
  ◌≡◌, refl, sym, ap, ◌∙◌, ◌⊎◌, inl, inr, Bool-cases, Option-cases, ◌==◌, Bool, true, false, not,
  ◌&&◌, ◌||◌, [], ◌∷◌, ◌++◌, some, Text, arith, length, take-drop, take, drop, text_eq, text_eq_iff,
  text_eq_refl, is_empty, length-drop, ==_iff,
}
use sipreaper.Banner.Bans.{Sender, is_sender}
use sipreaper.Banner.{v4_key, v6_key}
use sipreaper.Net.{Ip, to4, to16}

-- The first twelve bytes of the long form of an IPv4 address.
abbrev pub mapped_prefix : Text
mapped_prefix = 0 ∷ 0 ∷ 0 ∷ 0 ∷ 0 ∷ 0 ∷ 0 ∷ 0 ∷ 0 ∷ 0 ∷ 255 ∷ 255 ∷ []

same_bool : (a b : Bool) → (a ≡ true → b ≡ true) → (b ≡ true → a ≡ true) → a ≡ b
same_bool true b f g = sym (f refl)
same_bool false true f g = g refl
same_bool false false f g = refl

to4_short : (ip : Ip) → length ip ≡ 4 → to4 ip ≡ ip
unfolding to4
to4_short ip h = ground (arith, h)

to4_mapped : (k : Ip) → length k ≡ 4 → to4 (mapped_prefix ++ k) ≡ k
unfolding to4
to4_mapped k h = ground (arith, h, text_eq_refl mapped_prefix)

-- The two forms are the only ones that have a key of IPv4.
key_v4 : (ip k : Ip) → length k ≡ 4 → v4_key ip ≡ some k → (ip ≡ k) ⊎ (ip ≡ mapped_prefix ++ k)
unfolding v4_key to4
key_v4 ip k h e = elim (Bool-cases (length ip == 4)) [
  | inl short ↦ inl (ground (arith, short, e))
  | inr long ↦ elim (Bool-cases (length ip == 16 && text_eq (take 12 ip) mapped_prefix)) [
    | inl mapped ↦
        let d : drop 12 ip ≡ k = ground (arith, long, mapped, e) in
        let t : text_eq (take 12 ip) mapped_prefix ≡ true = ground (arith, mapped) in
        inr (
          sym (take-drop 12 ip)
          ∙ ap (λ x. x ++ drop 12 ip) ((text_eq_iff (take 12 ip) mapped_prefix).0 t)
          ∙ ap (λ x. mapped_prefix ++ x) d)
    | inr other ↦ absurd (ground (arith, long, other, e))
  ]
]

v4_key-to4 : (ip k : Ip) → length k ≡ 4 → to4 ip ≡ k → v4_key ip ≡ some k
unfolding v4_key
v4_key-to4 ip [] h e = absurd (omega (arith, h))
v4_key-to4 ip (x ∷ k) h e = ground (arith, e)

pub is_sender-v4 :
    (ip k : Ip)
    → length k ≡ 4
    → is_sender ip (some (Sender.v4 k)) ≡ (text_eq ip k || text_eq ip (mapped_prefix ++ k))
is_sender-v4 ip k h = same_bool _ _ there back
  where
    there :
        is_sender ip (some (Sender.v4 k)) ≡ true
        → (text_eq ip k || text_eq ip (mapped_prefix ++ k)) ≡ true
    there m = elim (Option-cases (v4_key ip)) [
      | inl bad ↦ absurd (ground (arith, bad, m))
      | inr (j, found) ↦
          let same : k ≡ j = (text_eq_iff k j).0 (ground (arith, found, m)) in
          elim (key_v4 ip k h (found ∙ ap some (sym same))) [
            | inl e ↦ ground (arith, (text_eq_iff ip k).1 e)
            | inr e ↦ ground (arith, (text_eq_iff ip (mapped_prefix ++ k)).1 e)
          ]
    ]

    keyed : v4_key ip ≡ some k → is_sender ip (some (Sender.v4 k)) ≡ true
    keyed e = rw (is_sender, e) (text_eq_refl k)

    back :
        (text_eq ip k || text_eq ip (mapped_prefix ++ k)) ≡ true
        → is_sender ip (some (Sender.v4 k)) ≡ true
    back m = elim (Bool-cases (text_eq ip k)) [
      | inl e ↦
          let same = (text_eq_iff ip k).0 e in
          keyed (v4_key-to4 ip k h (ap to4 same ∙ to4_short k h))
      | inr q ↦
          let same = (text_eq_iff ip (mapped_prefix ++ k)).0 (ground (arith, m, q)) in
          keyed (v4_key-to4 ip k h (ap to4 same ∙ to4_mapped k h))
    ]

not_empty : (t : Text) → length t ≡ 4 → ¬ (is_empty t ≡ true)
not_empty [] n h = omega (arith, n)
not_empty (x ∷ t) n h = cc h

-- The key of IPv6 of an address is the address, if it is of 16 bytes and not the long form.
key_v6 : (ip k : Ip) → v6_key ip ≡ some k → (ip ≡ k) × (text_eq (take 12 ip) mapped_prefix ≡ false)
unfolding v6_key to4 to16
key_v6 ip k e = elim (Bool-cases (length ip == 4)) [
  | inl short ↦ absurd (no_short ip short e)
  | inr long ↦ elim (Bool-cases (length ip == 16)) [
    | inr other ↦ absurd (ground (arith, long, other, e))
    | inl full ↦ elim (Bool-cases (text_eq (take 12 ip) mapped_prefix)) [
      | inl mapped ↦ absurd (no_mapped ip long full mapped e)
      | inr plain ↦ (ground (arith, long, full, plain, e), plain)
    ]
  ]
]
  where
    no_short : (ip : Ip) → (length ip == 4) ≡ true → ¬ (v6_key ip ≡ some k)
    no_short [] short e = absurd (ground (arith, short))
    no_short (x ∷ ip) short e = ground (arith, short, e)

    no_mapped :
        (ip : Ip)
        → (length ip == 4) ≡ false
        → (length ip == 16) ≡ true
        → text_eq (take 12 ip) mapped_prefix ≡ true
        → ¬ (v6_key ip ≡ some k)
    no_mapped ip long full mapped e =
        let n : length (drop 12 ip) ≡ 4 =
          omega (arith, length-drop 12 ip, (==_iff (length ip) 16).0 full) in
        elim (Bool-cases (is_empty (drop 12 ip))) [
          | inl none_left ↦ absurd (not_empty (drop 12 ip) n none_left)
          | inr some_left ↦ ground (arith, long, full, mapped, some_left, e)
        ]

v6_key-plain :
    (k : Ip) → length k ≡ 16 → text_eq (take 12 k) mapped_prefix ≡ false → v6_key k ≡ some k
unfolding v6_key to4 to16
v6_key-plain [] n h = absurd (omega (arith, n))
v6_key-plain (x ∷ k) n h = ground (arith, n, h)

pub is_sender-v6 :
    (ip k : Ip)
    → length k ≡ 16
    → is_sender ip (some (Sender.v6 k)) ≡ (text_eq ip k && not (text_eq (take 12 ip) mapped_prefix))
is_sender-v6 ip k h = same_bool _ _ there back
  where
    there :
        is_sender ip (some (Sender.v6 k)) ≡ true
        → (text_eq ip k && not (text_eq (take 12 ip) mapped_prefix)) ≡ true
    there m = elim (Option-cases (v6_key ip)) [
      | inl bad ↦ absurd (ground (arith, bad, m))
      | inr (j, found) ↦
          let same : k ≡ j = (text_eq_iff k j).0 (ground (arith, found, m)) in
          let (e, plain) = key_v6 ip k (found ∙ ap some (sym same)) in
          ground (arith, (text_eq_iff ip k).1 e, plain)
    ]

    back :
        (text_eq ip k && not (text_eq (take 12 ip) mapped_prefix)) ≡ true
        → is_sender ip (some (Sender.v6 k)) ≡ true
    back m =
        let same : ip ≡ k = (text_eq_iff ip k).0 (ground (arith, m)) in
        let plain : text_eq (take 12 k) mapped_prefix ≡ false =
          sym (ap (λ t. text_eq (take 12 t) mapped_prefix) same) ∙ ground (arith, m) in
        rw (is_sender, ap v6_key same ∙ v6_key-plain k h plain) (text_eq_refl k)
