-- ===== src/Shell/Edits.antt =====
-- What the changes of a line of src/kernel/shell/shell.c make of its text.
use lux_kernel.Base.{
  ℕ, zero, suc, ◌+◌, ◌-◌, ◌≤◌, ◌<◌, ◌≡◌, ◌∙◌, ap, List, [], ◌∷◌, ◌++◌, ltb, ◌==◌, if◌then◌else◌,
  get_or, take, drop, length, length-set, arith,
}
use lux_kernel.Strings.{memmove}
use lux_kernel.Strings.Copy.{get_or-memmove, get_or-set, length-memmove}
use lux_kernel.Shell.Complete.{Line}
use lux_kernel.Shell.Editor.{insert_char, delete_char, erase_char}

-- A text with the cursor at one of its places.
pub record Held (capacity : ℕ) (l : Line) (text : List ℕ) (at : ℕ) : Type 0 where
  pub size : length l.buffer ≡ capacity
  pub len_is : l.len ≡ length text
  pub fits : length text < capacity
  pub bytes : (i : ℕ) → i < length text → get_or l.buffer i 0 ≡ get_or text i 0
  pub at_is : l.cursor_pos ≡ at
  pub at_in : at ≤ length text

unfoldable pub insert_at : ℕ → ℕ → List ℕ → List ℕ
insert_at at c text = take at text ++ c ∷ drop at text

unfoldable pub delete_at : ℕ → List ℕ → List ℕ
delete_at at text = take at text ++ drop (suc at) text

get_or-insert_at :
    (at c i : ℕ) (text : List ℕ)
    → at ≤ length text
    → get_or (insert_at at c text) i 0
      ≡ (if ltb i at then get_or text i 0 else if i == at then c else get_or text (i - 1) 0)
unfolding insert_at
get_or-insert_at zero c zero text le = ground arith
get_or-insert_at zero c (suc i) text le =
    ap (λ j. get_or text j 0) {y = suc i - 1} (omega arith) ∙ ground arith
get_or-insert_at (suc at) c i [] le = absurd (omega arith)
get_or-insert_at (suc at) c zero (x ∷ xs) le = ground arith
get_or-insert_at (suc at) c (suc zero) (x ∷ xs) le =
    get_or-insert_at at c zero xs (omega arith) ∙ ground arith
get_or-insert_at (suc at) c (suc (suc i)) (x ∷ xs) le =
    get_or-insert_at at c (suc i) xs (omega arith)
    ∙ ground (
      arith,
      ap (λ j. get_or xs j 0) {x = suc i - 1} {y = i} (omega arith),
      ap (λ j. get_or (x ∷ xs) j 0) {x = suc (suc i) - 1} {y = suc i} (omega arith),
    )

get_or-delete_at :
    (at i : ℕ) (text : List ℕ)
    → at < length text
    → get_or (delete_at at text) i 0 ≡ (if ltb i at then get_or text i 0 else get_or text (i + 1) 0)
unfolding delete_at
get_or-delete_at at i [] lt = elim lt [ ]
get_or-delete_at zero i (x ∷ xs) lt =
    ap (λ j. get_or (x ∷ xs) j 0) {x = suc i} {y = i + 1} (omega arith) ∙ ground arith
get_or-delete_at (suc at) zero (x ∷ xs) lt = ground arith
get_or-delete_at (suc at) (suc i) (x ∷ xs) lt =
    get_or-delete_at at i xs (omega arith)
    ∙ ground (arith, ap (λ j. get_or (x ∷ xs) j 0) {x = suc i + 1} {y = suc (i + 1)} (omega arith))

length-insert_at :
    (at c : ℕ) (text : List ℕ) → at ≤ length text → length (insert_at at c text) ≡ length text + 1
unfolding insert_at
length-insert_at zero c text le = omega arith
length-insert_at (suc at) c [] le = absurd (omega arith)
length-insert_at (suc at) c (x ∷ xs) le = omega (arith, length-insert_at at c xs (omega arith))

length-delete_at :
    (at : ℕ) (text : List ℕ) → at < length text → length (delete_at at text) + 1 ≡ length text
unfolding delete_at
length-delete_at at [] lt = elim lt [ ]
length-delete_at zero (x ∷ xs) lt = omega arith
length-delete_at (suc at) (x ∷ xs) lt = omega (arith, length-delete_at at xs (omega arith))

pub insert_char-Held :
    (capacity c : ℕ) (l : Line) (text : List ℕ) (at : ℕ)
    → Held capacity l text at
    → length text + 1 < capacity
    → Held capacity (insert_char c l) (insert_at at c text) (at + 1)
unfolding insert_char
insert_char-Held capacity c l text at h room =
    let n = l.len - l.cursor_pos + 1 in
    let m = memmove l.buffer (l.cursor_pos + 1) l.cursor_pos n in
    let longer = length-insert_at at c text h.at_in in
    let moved = length-memmove l.buffer (l.cursor_pos + 1) l.cursor_pos n in
    record {
      size = length-set m l.cursor_pos c ∙ moved ∙ h.size;
      len_is = omega (arith, longer, h.len_is);
      fits = omega (arith, longer, room);
      bytes = λ i lt.
          get_or-set m l.cursor_pos i c (omega (arith, moved, h.size, h.at_is, h.at_in, room))
          ∙ ground (
            arith,
            get_or-memmove l.buffer (l.cursor_pos + 1) l.cursor_pos n i
                (omega (arith, h.size, h.at_is, h.at_in, h.len_is, room))
                (omega (arith, h.size, h.at_is, h.at_in, h.len_is, room)),
            get_or-insert_at at c i text h.at_in,
            h.bytes i,
            h.bytes (i - 1),
            longer,
            back i,
          );
      at_is = omega (arith, h.at_is);
      at_in = omega (arith, longer, h.at_in);
    }
  where
    back :
        (i : ℕ)
        → l.cursor_pos < i
        → get_or l.buffer (l.cursor_pos + (i - (l.cursor_pos + 1))) 0 ≡ get_or l.buffer (i - 1) 0
    back i lt = ap (λ j. get_or l.buffer j 0) (omega arith)

pub erase_char-Held :
    (capacity : ℕ) (l : Line) (text : List ℕ) (at : ℕ)
    → Held capacity l text (suc at)
    → Held capacity (erase_char l) (delete_at at text) at
unfolding erase_char
erase_char-Held capacity l text at h =
    let n = l.len - l.cursor_pos + 1 in
    let shorter = length-delete_at at text (omega (arith, h.at_in)) in
    record {
      size = length-memmove l.buffer (l.cursor_pos - 1) l.cursor_pos n ∙ h.size;
      len_is = omega (arith, shorter, h.len_is);
      fits = omega (arith, shorter, h.fits);
      bytes = λ i lt. ground (
        arith,
        get_or-memmove l.buffer (l.cursor_pos - 1) l.cursor_pos n i
            (omega (arith, h.size, h.at_is, h.at_in, h.len_is, h.fits))
            (omega (arith, h.size, h.at_is, h.at_in, h.len_is, h.fits)),
        get_or-delete_at at i text,
        h.bytes i,
        h.bytes (i + 1),
        shorter,
        forth i,
      );
      at_is = omega (arith, h.at_is);
      at_in = omega (arith, shorter, h.at_in);
    }
  where
    forth :
        (i : ℕ)
        → l.cursor_pos - 1 ≤ i
        → 0 < l.cursor_pos
        → get_or l.buffer (l.cursor_pos + (i - (l.cursor_pos - 1))) 0 ≡ get_or l.buffer (i + 1) 0
    forth i le some_left = ap (λ j. get_or l.buffer j 0) (omega arith)

pub delete_char-Held :
    (capacity : ℕ) (l : Line) (text : List ℕ) (at : ℕ)
    → Held capacity l text at
    → at < length text
    → Held capacity (delete_char l) (delete_at at text) at
unfolding delete_char
delete_char-Held capacity l text at h lt =
    let n = l.len - l.cursor_pos in
    let m = memmove l.buffer l.cursor_pos (l.cursor_pos + 1) n in
    let moved = length-memmove l.buffer l.cursor_pos (l.cursor_pos + 1) n in
    let shorter = length-delete_at at text lt in
    record {
      size = length-set m (l.len - 1) 0 ∙ moved ∙ h.size;
      len_is = omega (arith, shorter, h.len_is);
      fits = omega (arith, shorter, h.fits);
      bytes = λ i lt'.
          get_or-set m (l.len - 1) i 0 (omega (arith, moved, h.size, h.len_is, h.fits))
          ∙ ground (
            arith,
            get_or-memmove l.buffer l.cursor_pos (l.cursor_pos + 1) n i
                (omega (arith, h.size, h.at_is, h.len_is, h.fits, lt))
                (omega (arith, h.size, h.at_is, h.len_is, h.fits, lt)),
            get_or-delete_at at i text,
            h.bytes i,
            h.bytes (i + 1),
            shorter,
            forth i,
          );
      at_is = h.at_is;
      at_in = omega (arith, shorter, lt);
    }
  where
    forth :
        (i : ℕ)
        → l.cursor_pos ≤ i
        → get_or l.buffer (l.cursor_pos + 1 + (i - l.cursor_pos)) 0 ≡ get_or l.buffer (i + 1) 0
    forth i le = ap (λ j. get_or l.buffer j 0) (omega arith)
