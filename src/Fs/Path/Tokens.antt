-- ===== src/Fs/Path/Tokens.antt =====
-- `luxfs_tokenize_path` of src/kernel/fs/fs.c against the description of a path's components.
use lux_kernel.Base.{
  ℕ, zero, suc, ◌+◌, ◌<◌, ◌≡◌, refl, sym, ap, ◌∙◌, true, false, ◌||◌, Option, none, some, List, [],
  ◌∷◌, arith, leb, ◌==◌, length, Bool-cases, gt→==, inl, inr,
}
use lux_kernel.Fs.{Outcome, ok, fail}
use lux_kernel.Fs.Path.{
  name_max, slash, max_path_depth, skip_slashes, read_component, keep, tokenize_loop, tokenize_path,
  next_component, is_dot,
}
use lux_kernel.Fs.Path.Split.{
  extend, split, accept, accept-empty, split-other, split-nil, accept-nil, accept-skip_slashes,
  skip_slashes-length, accept-full, accept-long, accept-dot, accept-keep,
}
use lux_kernel.Fs.Path.Read.{Reads, extend-cons, split-HasPiece, read_component-Reads}

-- The equations of the outer loop.
next-end :
    (depth : ℕ) (path : List ℕ) → skip_slashes path ≡ [] → next_component depth path ≡ ok none
unfolding next_component
next-end depth path e = rw (next_component, e)

next-full :
    (depth : ℕ) (path : List ℕ) (b : ℕ) (bs : List ℕ)
    → skip_slashes path ≡ b ∷ bs
    → leb max_path_depth depth ≡ true
    → next_component depth path ≡ fail
unfolding next_component
next-full depth path b bs e d = rw (next_component, e, d)

abbrev found_next : Option (List ℕ × List ℕ) → Outcome (Option (List ℕ × List ℕ))
found_next none = fail
found_next (some found) = ok (some found)

next-read :
    (depth : ℕ) (path : List ℕ) (b : ℕ) (bs : List ℕ)
    → skip_slashes path ≡ b ∷ bs
    → leb max_path_depth depth ≡ false
    → (found : Option (List ℕ × List ℕ)) → read_component 0 (b ∷ bs) ≡ found
    → next_component depth path ≡ found_next found
unfolding next_component
next-read depth path b bs e d none r = rw (next_component, e, d, r)
next-read depth path b bs e d (some found) r = rw (next_component, e, d, r)

loop-end :
    (fuel depth : ℕ) (path : List ℕ)
    → next_component depth path ≡ ok none
    → tokenize_loop (suc fuel) depth path ≡ ok []
unfolding tokenize_loop
loop-end fuel depth path e = rw (tokenize_loop, e)

loop-fail :
    (fuel depth : ℕ) (path : List ℕ)
    → next_component depth path ≡ fail
    → tokenize_loop (suc fuel) depth path ≡ fail
unfolding tokenize_loop
loop-fail fuel depth path e = rw (tokenize_loop, e)

loop-same :
    (fuel depth : ℕ) (path w rest : List ℕ)
    → next_component depth path ≡ ok (some (w, rest))
    → (is_dot w || length w == 0) ≡ true
    → tokenize_loop (suc fuel) depth path ≡ tokenize_loop fuel depth rest
unfolding tokenize_loop
loop-same fuel depth path w rest e d = rw (tokenize_loop, e, d)

loop-keep :
    (fuel depth : ℕ) (path w rest : List ℕ)
    → next_component depth path ≡ ok (some (w, rest))
    → (is_dot w || length w == 0) ≡ false
    → tokenize_loop (suc fuel) depth path ≡ keep w (tokenize_loop fuel (depth + 1) rest)
unfolding tokenize_loop
loop-keep fuel depth path w rest e d = rw (tokenize_loop, e, d)

-- A path that starts with a component: the result of the inner loop decides the round.
tokenize_round :
    (fuel depth d : ℕ) (path : List ℕ) (b : ℕ) (bs : List ℕ)
    → skip_slashes path ≡ b ∷ bs
    → (b == slash) ≡ false
    → leb max_path_depth depth ≡ false
    → ((rest : List ℕ) (k depth' : ℕ)
        → length rest < length (b ∷ bs)
        → depth' + k ≡ 8
        → tokenize_loop fuel depth' rest ≡ accept k (split rest))
    → depth + suc d ≡ 8
    → (found : Option (List ℕ × List ℕ)) → read_component 0 (b ∷ bs) ≡ found
    → Reads 0 (b ∷ bs) found
    → tokenize_loop (suc fuel) depth path ≡ accept (suc d) (split (b ∷ bs))
tokenize_round fuel depth d path b bs s other room loop sum none r long =
    loop-fail fuel depth path (next-read depth path b bs s room none r)
    ∙ sym (
        ap (accept (suc d)) long.pieces
        ∙ accept-long d long.first long.word long.tail (ground (arith, long.long)))
tokenize_round fuel depth d path b bs s other room loop sum (some ([], rest)) r found =
    let (w, ws, cut) = split-HasPiece bs in
    let clash : (b ∷ w) ∷ ws ≡ [] ∷ found.tail =
      sym (split-other b bs other ∙ ap (extend b) cut ∙ extend-cons b w ws) ∙ found.pieces in
    absurd cc
tokenize_round fuel depth d path b bs s other room loop sum (some (c ∷ w, rest)) r found =
    let next = next-read depth path b bs s room (some (c ∷ w, rest)) r in
    let short : leb name_max (length (c ∷ w)) ≡ false = ground (arith, found.short (omega arith)) in
    let nonempty : (length (c ∷ w) == 0) ≡ false = gt→== (length (c ∷ w)) 0 (omega arith) in
    let smaller : length rest < length (b ∷ bs) = omega (arith, found.shorter) in
    elim (Bool-cases (is_dot (c ∷ w))) [
      | inl h ↦
          loop-same fuel depth path (c ∷ w) rest next (rw h refl)
          ∙ loop rest (suc d) depth smaller sum
          ∙ sym (found.others (suc d))
          ∙ sym (ap (accept (suc d)) found.pieces ∙ accept-dot d c w found.tail short h)
      | inr h ↦
          loop-keep fuel depth path (c ∷ w) rest next (rw h nonempty)
          ∙ ap (keep (c ∷ w))
              (loop rest d (depth + 1) smaller (omega (arith, sum)) ∙ sym (found.others d))
          ∙ sym (ap (accept (suc d)) found.pieces ∙ accept-keep d c w found.tail short h)
    ]

-- A path behind its leading slashes.
tokenize_rest :
    (fuel depth d : ℕ) (path : List ℕ)
    → ((rest : List ℕ) (k depth' : ℕ)
        → length rest < length path
        → depth' + k ≡ max_path_depth
        → tokenize_loop fuel depth' rest ≡ accept k (split rest))
    → depth + d ≡ max_path_depth
    → (rest : List ℕ) → skip_slashes path ≡ rest
    → tokenize_loop (suc fuel) depth path ≡ accept d (split rest)
tokenize_rest fuel depth d path loop sum [] s =
    loop-end fuel depth path (next-end depth path s)
    ∙ sym (ap (accept d) split-nil ∙ accept-empty d [] ∙ accept-nil d)
tokenize_rest fuel depth zero path loop sum (b ∷ bs) s =
    let (other, short) = skip_slashes-length path b bs s in
    let (w, ws, cut) = split-HasPiece bs in
    loop-fail fuel depth path (next-full depth path b bs s (ground arith))
    ∙ sym (
        ap (accept 0) (split-other b bs other ∙ ap (extend b) cut ∙ extend-cons b w ws)
        ∙ accept-full b w ws)
tokenize_rest fuel depth (suc d) path loop sum (b ∷ bs) s =
    let (other, short) = skip_slashes-length path b bs s in
    tokenize_round fuel depth d path b bs s other (ground arith)
      (λ rest k depth' less sum'. loop rest k depth' (omega (arith, less, short)) sum') sum
      (read_component 0 (b ∷ bs)) refl (read_component-Reads 0 (b ∷ bs))

tokenize_loop-accept :
    (fuel depth d : ℕ) (path : List ℕ)
    → length path < fuel
    → depth + d ≡ max_path_depth
    → tokenize_loop fuel depth path ≡ accept d (split path)
tokenize_loop-accept zero depth d path enough sum = absurd (omega (arith, enough))
tokenize_loop-accept (suc fuel) depth d path enough sum =
    tokenize_rest fuel depth d path
      (λ rest k depth' less sum'.
        tokenize_loop-accept fuel depth' k rest (omega (arith, less, enough)) sum')
      sum (skip_slashes path) refl
    ∙ sym (accept-skip_slashes d path)

-- `luxfs_tokenize_path` accepts a path exactly as the description does: cut at the slashes, it drops the
-- empty pieces and `.`, keeps the others in order, and refuses a piece of 32 bytes or more and a nonempty
-- piece behind eight kept ones. It never runs out of fuel.
pub tokenize_path-accept :
    (path : List ℕ) → tokenize_path (some path) ≡ accept max_path_depth (split path)
unfolding tokenize_path
tokenize_path-accept path =
    tokenize_loop-accept (length path + 1) 0 max_path_depth path (omega arith) refl
