-- ===== src/Sct/Canonical.antt =====
-- The parser accepts encodings only: the converse of the round trip, for byte strings.
use attestation_verify.Prelude.{
  ℕ, zero, suc, ◌≡◌, ◌↔◌, refl, sym, ap, ◌∙◌, subst, List, [], ◌∷◌, ◌++◌, length, length-take, take,
  drop, take-append-drop, All, Result, ok, ◌>>=◌, ok_inj, passed, refused_not, arith, ltb, not,
  ◌==◌, is_empty, true, unnegated, ap₂, inl, inr, Bool-cases,
}
use attestation_verify.Prelude.BigEndian.{
  IsByte, Fits, to_be_bytes, from_be_bytes, to_be_bytes-from_be_bytes,
}
use attestation_verify.Prelude.Text.{Bytes}
use attestation_verify.Errors.{Error}
use attestation_verify.Sct.{
  ParsedSct, take_bytes, take_number, parse_single_sct, parse_scts, parse_sct_list,
}
use attestation_verify.Sct.RoundTrip.{
  encode_sct, IsSct, encode_scts, encode_sct_list, parse_sct_list-encode_sct_list,
}

split_bytes : (xs ys : Bytes) → All IsByte (xs ++ ys) → All IsByte xs × All IsByte ys
split_bytes [] ys h = (tt, h)
split_bytes (x ∷ xs) ys (first, rest) = let (a, b) = split_bytes xs ys rest in ((first, a), b)

module _ {B C : Type 0} where
  -- What a read of `n` bytes took, and what it left.
  took :
      (n : ℕ) (cursor : Bytes) (f : Bytes × Bytes → Result B Error) {b : B}
      → All IsByte cursor
      → (take_bytes n cursor >>= f) ≡ ok b
      → ((s rest : Bytes)
          → cursor ≡ s ++ rest
          → length s ≡ n
          → All IsByte s
          → All IsByte rest
          → f (s, rest) ≡ ok b
          → C)
      → C
  unfolding take_bytes
  took n cursor f h e k = elim (Bool-cases (ltb (length cursor) n)) [
    | inl short ↦ absurd (cc (rw short at e))
    | inr enough ↦
        let cut = take-append-drop n cursor in
        let (front, back) =
          split_bytes (take n cursor) (drop n cursor) (subst (All IsByte) (sym cut) h) in
        let size : length (take n cursor) ≡ n = ground (arith, length-take n cursor) in
        k (take n cursor) (drop n cursor) (sym cut) size front back (rw enough at e)
  ]

module _ {B C : Type 0} where
  -- The same for a number of `w` bytes.
  read_number :
      (w : ℕ) (cursor : Bytes) (f : ℕ × Bytes → Result B Error) {b : B}
      → All IsByte cursor
      → (take_number w cursor >>= f) ≡ ok b
      → ((n : ℕ) (rest : Bytes)
          → cursor ≡ to_be_bytes w n ++ rest
          → Fits w n
          → All IsByte rest
          → f (n, rest) ≡ ok b
          → C)
      → C
  unfolding take_number
  read_number w cursor f h e k = passed (take_number w cursor) f e (λ (n, rest) one e.
      took w cursor _ h one (λ s left cut size front back same.
        let (written, fits) = to_be_bytes-from_be_bytes w s front size in
        let pair : ◌≡◌ {A = ℕ × Bytes} (from_be_bytes s, left) (n, rest) = ok_inj same in
        let m = ap (λ (t : ℕ × Bytes). t.0) pair in
        let l = ap (λ (t : ℕ × Bytes). t.1) pair in
        k n rest (cut ∙ ap₂ (λ (t u : Bytes). t ++ u) (sym written ∙ ap (to_be_bytes w) m) l)
          (subst (Fits w) m fits) (subst (All IsByte) l back) e))

none_left : (c : Bytes) → is_empty c ≡ true → c ≡ []
none_left [] h = refl
none_left (x ∷ c) h = absurd (cc h)

parse_single_sct_sound :
    (bytes : Bytes) (s : ParsedSct)
    → All IsByte bytes
    → parse_single_sct bytes ≡ ok s
    → (bytes ≡ encode_sct s) × (Fits 2 (length bytes) → IsSct s)
unfolding parse_single_sct
parse_single_sct_sound bytes s h e = read_number 1 bytes _ h e (λ version c1 e1 f1 h1 e.
    took 32 c1 _ h1 e (λ log_id c2 e2 f2 _ h2 e. read_number 8 c2 _ h2 e (λ time c3 e3 f3 h3 e.
      read_number 2 c3 _ h3 e (λ ext_len c4 e4 f4 h4 e.
        took ext_len c4 _ h4 e (λ ext c5 e5 f5 _ h5 e.
          read_number 1 c5 _ h5 e (λ hash c6 e6 f6 h6 e.
            read_number 1 c6 _ h6 e (λ alg c7 e7 f7 h7 e.
              read_number 2 c7 _ h7 e (λ sig_len c8 e8 f8 h8 e.
                took sig_len c8 _ h8 e (λ sig c9 e9 f9 _ h9 e.
                  refused_not (not (is_empty c9)) _ _ e (λ ended e.
                    let sct : ParsedSct = record {
                      version = version;
                      log_id = log_id;
                      timestamp_ms = time;
                      extensions = ext;
                      hash_algorithm = hash;
                      signature_algorithm = alg;
                      signature = sig;
                    } in
                    let done : c9 ≡ [] = none_left c9 (unnegated _ ended) in
                    let whole : bytes ≡ encode_sct sct =
                      cc (e1, e2, e3, e4, e5, e6, e7, e8, e9, f5, f9, done) in
                    subst
                      (λ (q : ParsedSct).
                        (bytes ≡ encode_sct q) × (Fits 2 (length bytes) → IsSct q))
                      (ok_inj e)
                      (
                        whole,
                        λ fits. (
                          f1,
                          f2,
                          f3,
                          subst (Fits 2) (sym f5) f4,
                          f6,
                          f7,
                          subst (Fits 2) (sym f9) f8,
                          subst (λ (b : Bytes). Fits 2 (length b)) whole fits,
                        ),
                      )))))))))))

parse_scts_sound :
    (fuel : ℕ) (bytes : Bytes) (scts : List ParsedSct)
    → All IsByte bytes
    → parse_scts fuel bytes ≡ ok scts
    → (bytes ≡ encode_scts scts) × All IsSct scts
unfolding parse_scts
parse_scts_sound fuel [] scts h e =
    subst (λ (l : List ParsedSct). ([] ≡ encode_scts l) × All IsSct l) (ok_inj e) (refl, tt)
parse_scts_sound zero (b ∷ bytes) scts h e = absurd (cc e)
parse_scts_sound (suc fuel) (b ∷ bytes) scts h e =
    read_number 2 (b ∷ bytes) _ h e (λ n c1 e1 fits h1 e.
      took n c1 _ h1 e (λ s c2 e2 size front h2 e. passed (parse_single_sct s) _ e (λ sct parsed e.
        passed (parse_scts fuel c2) _ e (λ rest others e.
          let (s_is, well) = parse_single_sct_sound s sct front parsed in
          let (c2_is, rest_well) = parse_scts_sound fuel c2 rest h2 others in
          let whole : b ∷ bytes ≡ encode_scts (sct ∷ rest) = cc (e1, e2, size, s_is, c2_is) in
          subst (λ (l : List ParsedSct). (b ∷ bytes ≡ encode_scts l) × All IsSct l) (ok_inj e)
            (whole, (well (subst (Fits 2) (sym size) fits), rest_well))))))

-- A byte string is parsed as a list of SCTs exactly when it is the encoding of the list: each part fits
-- the width that it is written in, a log id has 32 bytes, and nothing is left over at any level.
pub parse_sct_list_iff :
    (bytes : Bytes) (scts : List ParsedSct)
    → All IsByte bytes
    → (parse_sct_list bytes ≡ ok scts)
      ↔ ((bytes ≡ encode_sct_list scts) × All IsSct scts × Fits 2 (length (encode_scts scts)))
unfolding parse_sct_list
parse_sct_list_iff bytes scts h = (
  (λ e. read_number 2 bytes _ h e (λ n rest e1 fits h1 e.
      refused_not (not (n == length rest)) _ _ e (λ exact e.
        let (rest_is, well) = parse_scts_sound (length rest) rest scts h1 e in
        let n_is : n ≡ length rest = ground arith in
        (cc (e1, n_is, rest_is), well, subst (Fits 2) (n_is ∙ ap length rest_is) fits)))),
  λ (whole, well, fits). ap parse_sct_list whole ∙ parse_sct_list-encode_sct_list scts well fits,
)
