-- ===== src/Routing/App/Glob.antt =====
-- `glob_match` of app.rs against the meaning of a pattern: its left-to-right search for the leftmost
-- occurrence of each piece misses no match.
mod Search
use Search.{drop-drop, find_sub_sound, find_sub-leftmost}
use mathlib.Core.List.{append_assoc, append-nil}
use mathlib.Core.Path.{subst}
use route_guard.Prelude.{
  ℕ, zero, suc, ◌+◌, ◌≤◌, ◌≡◌, refl, ap, sym, ◌∙◌, ◌↔◌, Bool, true, false, none, some, List, [],
  ◌∷◌, ◌++◌, arith, is_empty, length, take, drop, if◌then◌else◌, nat_beq, Bool-cases, Option-cases,
  inl, inr, length-append, and-split,
}
use route_guard.Prelude.Text.{
  Text, contains_byte, starts_with, ends_with, find_sub, ends_with_iff, starts_with_iff,
  drop-append, starts_with-append, starts_with-drop,
}
use route_guard.Routing.App.{split_byte, cons_head, glob_rest, glob_parts, glob_match}

-- A star stands for any bytes, any other byte for itself.
abbrev pub Glob : Text → Text → Type 0
Glob [] s = s ≡ []
Glob (c ∷ p) s =
    if nat_beq c b'*'
    then ((w : Text) × (t : Text) × (s ≡ w ++ t) × Glob p t)
    else ((t : Text) × (s ≡ c ∷ t) × Glob p t)

-- The pieces between the stars, with a gap after each but the last.
abbrev Parts : List Text → Text → Type 0
Parts [] s = ⊥
Parts (p ∷ []) s = s ≡ p
Parts (p ∷ q ∷ qs) s = (w : Text) × (t : Text) × (s ≡ p ++ (w ++ t)) × Parts (q ∷ qs) t

-- The pieces after a gap.
abbrev Gap : List Text → Text → Type 0
Gap ps s = (w : Text) × (t : Text) × (s ≡ w ++ t) × Parts ps t

-- The rounds of the loop on what is left of the text.
rest_match : Text → List Text → Bool
rest_match s [] = true
rest_match s (p ∷ []) = if is_empty p then true else ends_with s p
rest_match s (p ∷ q ∷ qs) =
    let skip = rest_match s (q ∷ qs) in
    let found : Bool = elim (find_sub s p) [
      | none ↦ false
      | some i ↦ rest_match (drop (i + length p) s) (q ∷ qs)
    ] in
    if is_empty p then skip else found

glob_rest-eq-rest_match :
    (text : Text) (pos : ℕ) (ps : List Text) → glob_rest text pos ps ≡ rest_match (drop pos text) ps
unfolding glob_rest rest_match
glob_rest-eq-rest_match text pos [] = refl
glob_rest-eq-rest_match text pos (p ∷ []) = refl
glob_rest-eq-rest_match text pos (p ∷ q ∷ qs) = elim (Option-cases (find_sub (drop pos text) p)) [
  | inl lost ↦ ground (arith, glob_rest-eq-rest_match text pos (q ∷ qs))
  | inr (i, found) ↦ ground (
    arith,
    glob_rest-eq-rest_match text pos (q ∷ qs),
    glob_rest-eq-rest_match text (pos + (i + length p)) (q ∷ qs),
    drop-drop pos (i + length p) text,
  )
]

-- A gap may be longer.
Gap-append : (v s : Text) (ps : List Text) → Gap ps s → Gap ps (v ++ s)
Gap-append v s ps (w, t, e, m) = (v ++ w, t, ap (λ r. v ++ r) e ∙ sym (append_assoc v w t), m)

rest_match_sound : (s p : Text) (ps : List Text) → rest_match s (p ∷ ps) ≡ true → Gap (p ∷ ps) s
unfolding rest_match
rest_match_sound s [] [] h = (s, [], sym (append-nil s), refl)
rest_match_sound s (b ∷ p) [] h = let (q, e) = (ends_with_iff s (b ∷ p)).0 h in (q, b ∷ p, e, refl)
rest_match_sound s [] (q ∷ qs) h =
    let (w, t, e, m) = rest_match_sound s q qs h in ([], s, refl, (w, t, e, m))
rest_match_sound s (b ∷ p) (q ∷ qs) h = elim (Option-cases (find_sub s (b ∷ p))) [
  | inl lost ↦ absurd (ground arith)
  | inr (i, found) ↦
      let (w, t, e, m) = rest_match_sound (drop (i + length (b ∷ p)) s) q qs (ground arith) in
      (
        take i s,
        (b ∷ p) ++ (w ++ t),
        find_sub_sound s (b ∷ p) i found ∙ ap (λ r. take i s ++ ((b ∷ p) ++ r)) e,
        (w, t, refl, m),
      )
]

rest_match-found :
    (s : Text) (b : ℕ) (p q : Text) (qs : List Text) (i : ℕ)
    → find_sub s (b ∷ p) ≡ some i
    → rest_match s ((b ∷ p) ∷ q ∷ qs) ≡ rest_match (drop (i + length (b ∷ p)) s) (q ∷ qs)
unfolding rest_match
rest_match-found s b p q qs i found = rw found

rest_match_complete : (s p : Text) (ps : List Text) → Gap (p ∷ ps) s → rest_match s (p ∷ ps) ≡ true
unfolding rest_match
rest_match_complete s [] [] g = refl
rest_match_complete s (b ∷ p) [] (w, t, e, m) =
    (ends_with_iff s (b ∷ p)).1 (w, e ∙ ap (λ r. w ++ r) m)
rest_match_complete s [] (q ∷ qs) (w, t, e, (v, u, f, m)) =
    rest_match_complete s q qs (w ++ v, u, e ∙ ap (λ r. w ++ r) f ∙ sym (append_assoc w v u), m)
rest_match_complete s (b ∷ p) (q ∷ qs) (w, t, e, (v, u, f, m)) =
    let (i, x, found, left) = find_sub-leftmost w (b ∷ p) (v ++ u) in
    let whole : s ≡ w ++ ((b ∷ p) ++ (v ++ u)) = e ∙ ap (λ r. w ++ r) f in
    let rest : rest_match (x ++ (v ++ u)) (q ∷ qs) ≡ true =
      rest_match_complete (x ++ (v ++ u)) q qs (Gap-append x (v ++ u) (q ∷ qs) (v, u, refl, m)) in
    subst (λ r. rest_match r ((b ∷ p) ∷ q ∷ qs) ≡ true) (sym whole)
      (rest_match-found _ b p q qs i found ∙ ap (λ r. rest_match r (q ∷ qs)) left ∙ rest)

split_byte-cons : (b : ℕ) (p : Text) → (q : Text) × (qs : List Text) × (split_byte b p ≡ q ∷ qs)
unfolding split_byte
split_byte-cons b [] = ([], [], refl)
split_byte-cons b (c ∷ p) =
    let (q, qs, e) = split_byte-cons b p in
    elim (Bool-cases (nat_beq c b)) [
      | inl star ↦ ([], split_byte b p, rw star)
      | inr byte ↦ (c ∷ q, qs, rw byte (rw e))
    ]

Parts-cons_head :
    (c : ℕ) (q : Text) (qs : List Text) (s : Text)
    → ((t : Text) × (s ≡ c ∷ t) × Parts (q ∷ qs) t) ↔ Parts (cons_head c (q ∷ qs)) s
Parts-cons_head c q [] s = (λ (t, e, m). e ∙ ap (λ r. c ∷ r) m, λ m. (q, m, refl))
Parts-cons_head c q (r ∷ rs) s = (
  λ (t, e, m). (m.0, m.1, e ∙ ap (λ r. c ∷ r) m.2, m.3),
  λ (w, t, e, m). (q ++ (w ++ t), e, (w, t, refl, m)),
)

Glob-iff_Parts : (p s : Text) → Glob p s ↔ Parts (split_byte b'*' p) s
unfolding split_byte
Glob-iff_Parts [] s = (λ e. e, λ e. e)
Glob-iff_Parts (c ∷ p) s =
    let (q, qs, cut) = split_byte-cons b'*' p in
    elim (Bool-cases (nat_beq c b'*')) [
      | inl star ↦
          rw (star, cut)
            (
              λ (w, t, e, g). (w, t, e, rw cut at ((Glob-iff_Parts p t).0 g)),
              λ (w, t, e, m).
                  (w, t, e, (Glob-iff_Parts p t).1 (subst (λ ps. Parts ps t) (sym cut) m)),
            )
      | inr byte ↦
          rw (byte, cut)
            (
              λ (t, e, g).
                  (Parts-cons_head c q qs s).0 (t, e, rw cut at ((Glob-iff_Parts p t).0 g)),
              λ m.
                  let (t, e, n) = (Parts-cons_head c q qs s).1 m in
                  (t, e, (Glob-iff_Parts p t).1 (subst (λ ps. Parts ps t) (sym cut) n)),
            )
    ]

-- A piece at the start, then a gap: the loop's first round.
glob_parts_iff :
    (s p q : Text) (qs : List Text) → (glob_parts s (p ∷ q ∷ qs) ≡ true) ↔ Parts (p ∷ q ∷ qs) s
unfolding glob_parts
glob_parts_iff s [] q qs = (
  λ h. rest_match_sound s q qs (sym (glob_rest-eq-rest_match s 0 (q ∷ qs)) ∙ h),
  λ g. glob_rest-eq-rest_match s 0 (q ∷ qs) ∙ rest_match_complete s q qs g,
)
glob_parts_iff s (b ∷ p) q qs =
    let n : ℕ = length (b ∷ p) in
    let same : glob_rest s n (q ∷ qs) ≡ rest_match (drop n s) (q ∷ qs) =
      glob_rest-eq-rest_match s n (q ∷ qs) in
    (
      λ h.
          let (here, more) =
            and-split (starts_with s (b ∷ p)) (glob_rest s n (q ∷ qs)) (ground arith) in
          let (w, t, e, m) = rest_match_sound (drop n s) q qs (sym same ∙ more) in
          (w, t, starts_with-drop s (b ∷ p) here ∙ ap (λ r. (b ∷ p) ++ r) e, m),
      λ (w, t, e, m).
          let here : starts_with s (b ∷ p) ≡ true = (starts_with_iff s (b ∷ p)).1 (w ++ t, e) in
          let left : drop n s ≡ w ++ t = ap (λ r. drop n r) e ∙ drop-append (b ∷ p) (w ++ t) in
          let more : rest_match (drop n s) (q ∷ qs) ≡ true =
            rest_match_complete (drop n s) q qs (w, t, left, m) in
          ground (arith, here, same, more),
    )

split_byte-two :
    (b : ℕ) (p : Text)
    → contains_byte b p ≡ true
    → (q : Text) × (r : Text) × (rs : List Text) × (split_byte b p ≡ q ∷ r ∷ rs)
unfolding split_byte
split_byte-two b [] h = absurd (ground arith)
split_byte-two b (c ∷ p) h = elim (Bool-cases (nat_beq c b)) [
  | inl star ↦ let (r, rs, e) = split_byte-cons b p in ([], r, rs, rw star (rw e))
  | inr byte ↦
      let (q, r, rs, e) = split_byte-two b p (ground arith) in (c ∷ q, r, rs, rw byte (rw e))
]

-- With a star in the pattern, `glob_match` accepts exactly the texts that the pattern describes.
pub glob_match_iff :
    (pattern text : Text)
    → contains_byte b'*' pattern ≡ true
    → (glob_match pattern text ≡ true) ↔ Glob pattern text
unfolding glob_match
glob_match_iff pattern text h =
    let (q, r, rs, cut) = split_byte-two b'*' pattern h in
    let parts : (glob_parts text (split_byte b'*' pattern) ≡ true)
        ↔ Parts (split_byte b'*' pattern) text =
      subst (λ ps. (glob_parts text ps ≡ true) ↔ Parts ps text) (sym cut)
        (glob_parts_iff text q r rs) in
    let means : Glob pattern text ↔ Parts (split_byte b'*' pattern) text =
      Glob-iff_Parts pattern text in
    (λ m. means.1 (parts.0 m), λ g. parts.1 (means.0 g))
