-- ===== src/PolicyMatch/Glob/Decides.antt =====
-- `glob_match` decides a relation that has no search order in it, and its loop ends.
use attestation_verify.Prelude.{
  ℕ, zero, suc, ◌+◌, ◌*◌, ◌≤◌, ◌<◌, ◌≡◌, ◌≢◌, ◌↔◌, refl, sym, Bool, true, false, Bool-cases,
  false≢true, ◌∙◌, inl, inr, Option, none, some, [], ◌∷◌, length, ◌==◌, arith, subst, ==_iff,
}
use attestation_verify.Prelude.Text.{Text}
use attestation_verify.PolicyMatch.Glob.{
  Star, backtrack, only_stars, glob_loop, glob_fuel, glob_match,
}

abbrev pub star_byte : ℕ
star_byte = b'*'

-- A `*` matches any bytes, every other byte matches itself.
pub data Matches : Text → Text → Type 0 where
  empty : Matches [] []
  byte : {x c : ℕ} {p t : Text} → x ≢ star_byte → x ≡ c → Matches p t → Matches (x ∷ p) (c ∷ t)
  leave : {x : ℕ} {p t : Text} → x ≡ star_byte → Matches p t → Matches (x ∷ p) t
  take : {x c : ℕ} {p t : Text} → x ≡ star_byte → Matches (x ∷ p) t → Matches (x ∷ p) (c ∷ t)

-- What a pattern matches behind any bytes.
abbrev Somewhere : Text → Text → Type 0
Somewhere p t = Matches (star_byte ∷ p) t

as_star : {x : ℕ} {p t : Text} → x ≡ star_byte → Matches (x ∷ p) t → Somewhere p t
as_star {p} {t} e m = subst (λ (y : ℕ). Matches (y ∷ p) t) e m

of_star : {x : ℕ} {p t : Text} → x ≡ star_byte → Somewhere p t → Matches (x ∷ p) t
of_star {p} {t} e m = subst (λ (y : ℕ). Matches (y ∷ p) t) (sym e) m

at_end : {p : Text} → Somewhere p [] → Matches p []
at_end (leave e m) = m

two_stars : {x : ℕ} {p t : Text} → x ≡ star_byte → Somewhere (x ∷ p) t → Somewhere p t
two_stars e (byte n _ m) = absurd (n refl)
two_stars e (leave _ m) = as_star e m
two_stars e (take _ m) = take refl (two_stars e m)

must_take : {c : ℕ} {p t : Text} → Somewhere p (c ∷ t) → ¬ Matches p (c ∷ t) → Somewhere p t
must_take (byte n _ m) no_match = absurd (n refl)
must_take (leave _ m) no_match = absurd (no_match m)
must_take (take _ m) no_match = m

plain_needs_byte : {x : ℕ} {p : Text} → x ≢ star_byte → Matches (x ∷ p) [] → ⊥
plain_needs_byte n (leave e m) = n e

-- Wherever a plain byte in front of `p` matches, `p` matches behind the first byte of the text.
past_byte :
    {x c : ℕ} {p : Text} (t : Text) → x ≢ star_byte → Somewhere (x ∷ p) (c ∷ t) → Somewhere p t
past_byte t n (byte k _ m) = absurd (k refl)
past_byte t n (leave _ (byte _ _ m)) = leave refl m
past_byte t n (leave _ (leave e m)) = absurd (n e)
past_byte t n (leave _ (take e m)) = absurd (n e)
past_byte [] n (take _ (leave _ m)) = elim (plain_needs_byte n m) [ ]
past_byte (c ∷ t) n (take _ m) = take refl (past_byte t n m)

same_byte : {x c : ℕ} {p t : Text} → x ≢ star_byte → Matches (x ∷ p) (c ∷ t) → (x ≡ c) × Matches p t
same_byte n (byte _ e m) = (e, m)
same_byte n (leave e m) = absurd (n e)
same_byte n (take e m) = absurd (n e)

only_stars→Matches : (p : Text) → only_stars p ≡ true → Matches p []
unfolding only_stars
only_stars→Matches [] h = empty
only_stars→Matches (x ∷ p) h = elim (Bool-cases (x == b'*')) [
  | inl s ↦ leave ((==_iff x b'*').0 s) (only_stars→Matches p (rw (s, only_stars) at h))
  | inr s ↦ absurd (false≢true (rw (s, only_stars) at h))
]

Matches→only_stars : {p : Text} → Matches p [] → only_stars p ≡ true
unfolding only_stars
Matches→only_stars empty = refl
Matches→only_stars (leave {x} e m) = rw ((==_iff x b'*').1 e, only_stars) (Matches→only_stars m)

-- The loop ended with an answer, and the answer is right about `G`.
abbrev pub Decides : Type 0 → Option Bool → Type 0
Decides G none = ⊥
Decides G (some true) = G
Decides G (some false) = ¬ G

-- `G` is the question at the start; `k` is more than the length of any pattern that is left.
module _ (G : Type 0) (k : ℕ) where
  -- What a saved star means: from there on the question is still open, and since then the moves
  -- were forced. `m` bounds the text that it may still give up.
  abbrev Saved : ℕ → Text → Text → Star → Type 0
  Saved m p t none = G → Matches p t
  Saved m p t (some (star_p, star_t)) =
      (G ↔ Somewhere star_p star_t)
      × (Matches star_p star_t → Matches p t)
      × (length t ≤ length star_t)
      × (length star_t ≤ m)
      × (length star_p < k)

  record Inv (fuel m : ℕ) (p t : Text) (star : Star) : Type 0 where
    now : Matches p t → G
    later : G → Somewhere p t
    saved : Saved m p t star
    text_bound : length t ≤ m
    pattern_bound : length p < k
    enough : m * k + length p < fuel

  Inv-star :
      {fuel m : ℕ} {p t : Text}
      → G ↔ Somewhere p t
      → length t ≤ m
      → length p < k
      → m * k + length p < fuel
      → Inv fuel m p t (some (p, t))
  Inv-star {t} e ht hp hf = record {
    now = λ d. e.1 (leave refl d);
    later = e.0;
    saved = (e, λ d. d, omega arith, ht, hp);
    text_bound = ht;
    pattern_bound = hp;
    enough = hf;
  }

  Saved-byte :
      (m x c : ℕ) (p t : Text) (star : Star)
      → x ≢ star_byte
      → Saved m (x ∷ p) (c ∷ t) star
      → Saved m p t star
  Saved-byte m x c p t none n h = λ g. (same_byte n (h g)).1
  Saved-byte m x c p t (some (star_p, star_t)) n (e, forced, shorter, ht, hp) =
      (e, λ d. (same_byte n (forced d)).1, omega arith, ht, hp)

  Inv-byte :
      {fuel m x c : ℕ} {p t : Text} {star : Star}
      → x ≢ star_byte
      → x ≡ c
      → Inv (suc fuel) m (x ∷ p) (c ∷ t) star
      → Inv fuel m p t star
  Inv-byte {m} {x} {c} {p} {t} {star} n e i = record {
    now = λ d. i.now (byte n e d);
    later = λ g. past_byte t n (i.later g);
    saved = Saved-byte m x c p t star n i.saved;
    text_bound = omega arith;
    pattern_bound = omega arith;
    enough = omega arith;
  }

  -- After a mismatch the star gives up a byte, which lowers `m` and pays for the whole pattern.
  backtrack-Decides :
      {fuel c : ℕ} {p t : Text} (m : ℕ) (star : Star) (next : Text → Text → Star → Option Bool)
      → ((m' : ℕ) (p' t' : Text) (s : Star) → Inv fuel m' p' t' s → Decides G (next p' t' s))
      → Inv (suc fuel) m p (c ∷ t) star
      → ¬ Matches p (c ∷ t)
      → Decides G (backtrack star next)
  backtrack-Decides m none next ih i no_match = λ g. no_match (i.saved g)
  backtrack-Decides m (some (star_p, [])) next ih i no_match = absurd (omega arith)
  backtrack-Decides zero (some (star_p, x ∷ star_t)) next ih i no_match = absurd (omega arith)
  backtrack-Decides (suc m) (some (star_p, x ∷ star_t)) next ih i no_match =
      let (e, forced, _, _, _) = i.saved in
      ih m star_p star_t (some (star_p, star_t)) (
        Inv-star (λ g. must_take (e.0 g) (λ d. no_match (forced d)), λ d. e.1 (take refl d))
          (omega arith) (omega arith) (omega arith))

  glob_loop-Decides :
      (fuel m : ℕ) (p t : Text) (star : Star)
      → Inv fuel m p t star
      → Decides G (glob_loop fuel p t star)
  unfolding glob_loop
  glob_loop-Decides zero m p t star i = absurd (omega arith)
  glob_loop-Decides (suc fuel) m p [] star i = elim (Bool-cases (only_stars p)) [
    | inl s ↦ rw s (i.now (only_stars→Matches p s))
    | inr s ↦ rw s (λ g. false≢true (sym s ∙ Matches→only_stars (at_end (i.later g))))
  ]
  glob_loop-Decides (suc fuel) m [] (c ∷ t) star i =
      backtrack-Decides m star (glob_loop fuel) (glob_loop-Decides fuel) i (λ d. elim d [ ])
  glob_loop-Decides (suc fuel) m (x ∷ p) (c ∷ t) star i = elim (Bool-cases (x == b'*')) [
    | inl s ↦
        let e = (==_iff x b'*').0 s in
        rw (s, glob_loop)
          (glob_loop-Decides fuel m p (c ∷ t) (some (p, c ∷ t)) (
            Inv-star (λ g. two_stars e (i.later g), λ d. i.now (of_star e d)) i.text_bound
              (omega arith) (omega arith)))
    | inr s ↦
        let n : x ≢ star_byte = ground arith in
        elim (Bool-cases (x == c)) [
          | inl q ↦
              rw (s, q, glob_loop)
                (glob_loop-Decides fuel m p t star (Inv-byte n ((==_iff x c).0 q) i))
          | inr q ↦
              let ne : x ≢ c = ground arith in
              rw (s, q, glob_loop)
                (backtrack-Decides m star (glob_loop fuel) (glob_loop-Decides fuel) i
                  (λ d. ne (same_byte n d).0))
        ]
  ]

glob_fuel-Decides : (p t : Text) → Decides (Matches p t) (glob_loop (glob_fuel p t) p t none)
glob_fuel-Decides p t =
    glob_loop-Decides (Matches p t) (length p + 1) (glob_fuel p t) (length t) p t none (record {
      now = λ d. d;
      later = leave refl;
      saved = λ d. d;
      text_bound = omega arith;
      pattern_bound = omega arith;
      enough = omega arith;
    })

abbrev answer_of : Option Bool → Bool
answer_of (some answer) = answer
answer_of none = false

Decides-answer :
    (G : Type 0) (o : Option Bool)
    → Decides G o
    → ((b : Bool) × (o ≡ some b)) × ((answer_of o ≡ true) ↔ G)
Decides-answer G none d = absurd d
Decides-answer G (some true) d = ((true, refl), (λ _. d, λ _. refl))
Decides-answer G (some false) d = ((false, refl), (λ e. absurd (false≢true e), λ g. absurd (d g)))

-- The loop of `glob_match` ends within (|text| + 1) * (|pattern| + 1) rounds, and the answer is true
-- on the texts that the pattern matches and on no others.
pub glob_match_iff :
    (pattern text : Text)
    → ((b : Bool) × (glob_loop (glob_fuel pattern text) pattern text none ≡ some b))
      × ((glob_match pattern text ≡ true) ↔ Matches pattern text)
unfolding glob_match
glob_match_iff p t =
    Decides-answer (Matches p t) (glob_loop (glob_fuel p t) p t none) (glob_fuel-Decides p t)
