-- ===== src/Fs/Path/Read.antt =====
-- The inner loop of `luxfs_tokenize_path` of src/kernel/fs/fs.c.
use lux_kernel.Base.{
  ℕ, ◌+◌, ◌-◌, ◌≤◌, ◌<◌, ◌≡◌, refl, sym, ap, ◌∙◌, true, false, Option, none, some, List, [], ◌∷◌,
  arith, leb, ◌==◌, length, Bool-cases, inl, inr, subst,
}
use lux_kernel.Fs.Path.{name_max, slash, read_component}
use lux_kernel.Fs.Path.Split.{
  extend, split, accept, accept-empty, split-slash, split-other, read-nil, split-nil, accept-nil,
}

-- What the inner loop read is the first piece, and what it left has the other pieces.
pub record Read (len : ℕ) (cs w rest : List ℕ) : Type 0 where
  pub tail : List (List ℕ)
  pub pieces : split cs ≡ w ∷ tail
  pub others : (d : ℕ) → accept d tail ≡ accept d (split rest)
  pub short : len < name_max → len + length w < name_max
  pub shorter : length w + length rest ≡ length cs

-- What a first piece too long looks like.
pub record TooLong (len : ℕ) (cs : List ℕ) : Type 0 where
  pub first : ℕ
  pub word : List ℕ
  pub tail : List (List ℕ)
  pub pieces : split cs ≡ (first ∷ word) ∷ tail
  pub long : name_max ≤ len + length (first ∷ word)

-- The two results of the inner loop.
abbrev pub Reads : ℕ → List ℕ → Option (List ℕ × List ℕ) → Type 0
Reads len cs none = TooLong len cs
Reads len cs (some (w, rest)) = Read len cs w rest

pub extend-cons : (c : ℕ) (w : List ℕ) (ws : List (List ℕ)) → extend c (w ∷ ws) ≡ (c ∷ w) ∷ ws
unfolding extend
extend-cons c w ws = refl

pub more : ℕ → Option (List ℕ × List ℕ) → Option (List ℕ × List ℕ)
more c none = none
more c (some (w, r)) = some (c ∷ w, r)

pub read-slash :
    (len c : ℕ) (cs : List ℕ)
    → (c == slash) ≡ true
    → read_component len (c ∷ cs) ≡ some ([], c ∷ cs)
unfolding read_component
read-slash len c cs e = rw e

pub read-long :
    (len c : ℕ) (cs : List ℕ)
    → (c == slash) ≡ false
    → leb (name_max - 1) len ≡ true
    → read_component len (c ∷ cs) ≡ none
unfolding read_component
read-long len c cs e l = rw (e, l)

pub read-more :
    (len c : ℕ) (cs : List ℕ)
    → (c == slash) ≡ false
    → leb (name_max - 1) len ≡ false
    → read_component len (c ∷ cs) ≡ more c (read_component (len + 1) cs)
unfolding read_component more
read-more len c cs e l = rw (e, l) (read_component-by (read_component (len + 1) cs))
  where
    read_component-by :
        (found : Option (List ℕ × List ℕ))
        → elim found [ none ↦ none | some (w, r) ↦ some (c ∷ w, r) ] ≡ more c found
    read_component-by none = refl
    read_component-by (some (w, r)) = refl

pub more-Reads :
    (len c : ℕ) (cs : List ℕ)
    → (c == slash) ≡ false
    → leb (name_max - 1) len ≡ false
    → (found : Option (List ℕ × List ℕ)) → Reads (len + 1) cs found
    → Reads len (c ∷ cs) (more c found)
unfolding more
more-Reads len c cs e l none long = record {
  first = c;
  word = long.first ∷ long.word;
  tail = long.tail;
  pieces =
      split-other c cs e
      ∙ ap (extend c) long.pieces
      ∙ extend-cons c (long.first ∷ long.word) long.tail;
  long = omega (arith, long.long);
}
more-Reads len c cs e l (some (w, rest)) found = record {
  tail = found.tail;
  pieces = split-other c cs e ∙ ap (extend c) found.pieces ∙ extend-cons c w found.tail;
  others = found.others;
  short = λ below. ground (arith, found.short, l);
  shorter = omega (arith, found.shorter);
}

pub nil-Read : (len : ℕ) → Read len [] [] []
nil-Read len = record {
  tail = [];
  pieces = split-nil;
  others = λ d. accept-nil d ∙ sym (ap (accept d) split-nil ∙ accept-empty d [] ∙ accept-nil d);
  short = λ below. omega (arith, below);
  shorter = refl;
}

pub slash-Read : (len c : ℕ) (cs : List ℕ) → (c == slash) ≡ true → Read len (c ∷ cs) [] (c ∷ cs)
slash-Read len c cs e = record {
  tail = split cs;
  pieces = split-slash c cs e;
  others = λ d. sym (ap (accept d) (split-slash c cs e) ∙ accept-empty d (split cs));
  short = λ below. omega (arith, below);
  shorter = omega arith;
}

pub split-HasPiece : (cs : List ℕ) → (w : List ℕ) × (ws : List (List ℕ)) × (split cs ≡ w ∷ ws)
split-HasPiece [] = ([], [], split-nil)
split-HasPiece (c ∷ cs) = elim (Bool-cases (c == slash)) [
  | inl e ↦ ([], split cs, split-slash c cs e)
  | inr e ↦
      let (w, ws, cut) = split-HasPiece cs in
      (c ∷ w, ws, split-other c cs e ∙ ap (extend c) cut ∙ extend-cons c w ws)
]

pub full-TooLong :
    (len c : ℕ) (cs : List ℕ)
    → (c == slash) ≡ false
    → leb (name_max - 1) len ≡ true
    → TooLong len (c ∷ cs)
full-TooLong len c cs e l =
    let (w, ws, cut) = split-HasPiece cs in
    record {
      first = c;
      word = w;
      tail = ws;
      pieces = split-other c cs e ∙ ap (extend c) cut ∙ extend-cons c w ws;
      long = ground arith;
    }

pub read_component-Reads : (len : ℕ) (cs : List ℕ) → Reads len cs (read_component len cs)
read_component-Reads len [] = subst (Reads len []) (sym (read-nil len)) (nil-Read len)
read_component-Reads len (c ∷ cs) = elim (Bool-cases (c == slash)) [
  | inl e ↦ subst (Reads len (c ∷ cs)) (sym (read-slash len c cs e)) (slash-Read len c cs e)
  | inr e ↦ elim (Bool-cases (leb (name_max - 1) len)) [
    | inl l ↦ subst (Reads len (c ∷ cs)) (sym (read-long len c cs e l)) (full-TooLong len c cs e l)
    | inr l ↦
        subst (Reads len (c ∷ cs)) (sym (read-more len c cs e l)) (
          more-Reads len c cs e l (read_component (len + 1) cs) (read_component-Reads (len + 1) cs))
  ]
]
