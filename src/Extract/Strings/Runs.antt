-- ===== src/Extract/Strings/Runs.antt =====
-- `extract_ascii_strings` of capa-x/src/extract/features/strings.rs against the maximal runs of a
-- buffer, which are put together byte by byte from its end.
use capa_x.Prelude.{
  ℕ, zero, suc, ◌+◌, ◌≤◌, ◌<◌, ◌≡◌, refl, sym, ap, ◌∙◌, true, false, ◌||◌, List, [], ◌∷◌, arith,
  leb, ltb, ◌==◌, if◌then◌else◌, length, any, all, Bool, Bool-cases, inl, inr, subst, ◌&&◌,
}
use capa_x.Extract.Strings.{
  ExtractedString, is_ascii_byte, is_filler, buf_filled_with, take_run, push_run, ascii_loop,
  extract_ascii_strings, repeats,
}

-- a byte before the runs that are behind it: it makes the next one longer, or is one of its own
unfoldable pub join : ℕ → ℕ → List ExtractedString → List ExtractedString
join b i [] = record { s = b ∷ []; offset = i } ∷ []
join b i (r ∷ rs) =
    if r.offset == suc i
    then record { s = b ∷ r.s; offset = i } ∷ rs
    else record { s = b ∷ []; offset = i } ∷ r ∷ rs

-- the maximal runs of a buffer that starts at a position
unfoldable pub runs : ℕ → List ℕ → List ExtractedString
unfolding join
runs i [] = []
runs i (b ∷ buf) = let rest = runs (suc i) buf in if is_ascii_byte b then join b i rest else rest

unfoldable pub long_enough : ℕ → List ExtractedString → List ExtractedString
long_enough n [] = []
long_enough n (r ∷ rs) =
    let rest = long_enough n rs in if leb n (length r.s) then r ∷ rest else rest

-- the first run is not before a position
abbrev StartsAt : ℕ → List ExtractedString → Type 0
StartsAt i [] = Unit
StartsAt i (r ∷ rs) = i ≤ r.offset

StartsAt-join : (b i : ℕ) (rs : List ExtractedString) → StartsAt i (join b i rs)
unfolding join
StartsAt-join b i [] = omega arith
StartsAt-join b i (r ∷ rs) = elim (Bool-cases (r.offset == suc i)) [
  | inl e ↦ rw (e, StartsAt) (omega arith)
  | inr e ↦ rw (e, StartsAt) (omega arith)
]

StartsAt-weaker : (i : ℕ) (rs : List ExtractedString) → StartsAt (suc i) rs → StartsAt i rs
StartsAt-weaker i [] h = tt
StartsAt-weaker i (r ∷ rs) h = omega arith

StartsAt-runs : (i : ℕ) (buf : List ℕ) → StartsAt i (runs i buf)
unfolding runs
StartsAt-runs i [] = tt
StartsAt-runs i (b ∷ buf) = elim (Bool-cases (is_ascii_byte b)) [
  | inl e ↦ rw e (StartsAt-join b i (runs (suc i) buf))
  | inr e ↦ rw e (StartsAt-weaker i (runs (suc i) buf) (StartsAt-runs (suc i) buf))
]

join_apart :
    (b i : ℕ) (rs : List ExtractedString)
    → StartsAt (suc (suc i)) rs
    → join b i rs ≡ record { s = b ∷ []; offset = i } ∷ rs
unfolding join
join_apart b i [] h = refl
join_apart b i (r ∷ rs) h = let apart : (r.offset == suc i) ≡ false = ground arith in rw apart refl

join_adjacent :
    (b i : ℕ) (s : List ℕ) (rs : List ExtractedString)
    → join b i (record { s = s; offset = suc i } ∷ rs) ≡ record { s = b ∷ s; offset = i } ∷ rs
unfolding join
join_adjacent b i s rs = let here : (suc i == suc i) ≡ true = ground arith in rw here refl

-- One step of each walk.
runs-ascii :
    (i b : ℕ) (buf : List ℕ)
    → is_ascii_byte b ≡ true
    → runs i (b ∷ buf) ≡ join b i (runs (suc i) buf)
unfolding runs
runs-ascii i b buf e = rw e refl

runs-other :
    (i b : ℕ) (buf : List ℕ) → is_ascii_byte b ≡ false → runs i (b ∷ buf) ≡ runs (suc i) buf
unfolding runs
runs-other i b buf e = rw e refl

take_run-ascii :
    (b : ℕ) (buf : List ℕ)
    → is_ascii_byte b ≡ true
    → take_run (b ∷ buf) ≡ (b ∷ (take_run buf).0, (take_run buf).1)
unfolding take_run
take_run-ascii b buf e = rw e refl

take_run-other :
    (b : ℕ) (buf : List ℕ) → is_ascii_byte b ≡ false → take_run (b ∷ buf) ≡ ([], b ∷ buf)
unfolding take_run
take_run-other b buf e = rw e refl

-- a run that was taken from a position on, and the runs behind it
abbrev taken : ℕ → List ℕ × List ℕ → List ExtractedString
taken i t = record { s = t.0; offset = i } ∷ runs (i + length t.0) t.1

-- the first maximal run is what the inner loop takes
runs-take_run :
    (i b : ℕ) (buf : List ℕ)
    → is_ascii_byte b ≡ true
    → runs i (b ∷ buf) ≡ taken i (take_run (b ∷ buf))
runs-take_run i b [] e =
    runs-ascii i b [] e ∙ (unfold runs join take_run in sym (ap (taken i) (take_run-ascii b [] e)))
runs-take_run i b (c ∷ buf) e = elim (Bool-cases (is_ascii_byte c)) [
  | inl k ↦
      let t = take_run (c ∷ buf) in
      runs-ascii i b (c ∷ buf) e
      ∙ ap (join b i) (runs-take_run (suc i) c buf k)
      ∙ join_adjacent b i t.0 (runs (suc i + length t.0) t.1)
      ∙ ap (λ n. record { s = b ∷ t.0; offset = i } ∷ runs n t.1) (omega arith)
      ∙ sym (ap (taken i) (take_run-ascii b (c ∷ buf) e))
  | inr k ↦
      let next = runs-other (suc i) c buf k in
      let rest : (take_run (b ∷ c ∷ buf)) ≡ (b ∷ [], c ∷ buf) =
        take_run-ascii b (c ∷ buf) e
        ∙ ap (λ (t : List ℕ × List ℕ). (b ∷ t.0, t.1)) (take_run-other c buf k) in
      runs-ascii i b (c ∷ buf) e
      ∙ join_apart b i (runs (suc i) (c ∷ buf))
          (subst (StartsAt (suc (suc i))) (sym next) (StartsAt-runs (suc (suc i)) buf))
      ∙ ap (λ n. record { s = b ∷ []; offset = i } ∷ runs n (c ∷ buf)) (omega arith)
      ∙ sym (ap (taken i) rest)
]

length-take_run : (buf : List ℕ) → length (take_run buf).1 ≤ length buf
unfolding take_run
length-take_run [] = omega arith
length-take_run (b ∷ buf) = ground (arith, length-take_run buf)

push_run-long_enough :
    (n i : ℕ) (run : List ℕ) (rs : List ExtractedString)
    → push_run n i run (long_enough n rs) ≡ long_enough n (record { s = run; offset = i } ∷ rs)
unfolding long_enough
push_run-long_enough n i run rs = refl

ascii_loop-runs :
    (fuel n i : ℕ) (buf : List ℕ)
    → length buf < fuel
    → ascii_loop fuel n i buf ≡ long_enough n (runs i buf)
unfolding ascii_loop
ascii_loop-runs zero n i buf h = absurd (omega arith)
ascii_loop-runs (suc fuel) n i [] h = unfold runs long_enough in refl
ascii_loop-runs (suc fuel) n i (b ∷ buf) h = elim (Bool-cases (is_ascii_byte b)) [
  | inl e ↦
      let t = take_run (b ∷ buf) in
      let shorter : length t.1 < fuel = ground (
        arith,
        length-take_run buf,
        ap (λ (p : List ℕ × List ℕ). length p.1) (take_run-ascii b buf e),
      ) in
      rw (e, ascii_loop)
        (ap (push_run n i t.0) (ascii_loop-runs fuel n (i + length t.0) t.1 shorter)
          ∙ push_run-long_enough n i t.0 (runs (i + length t.0) t.1)
          ∙ ap (long_enough n) (sym (runs-take_run i b buf e)))
  | inr e ↦
      rw (e, ascii_loop)
        (ascii_loop-runs fuel n (suc i) buf (omega arith)
          ∙ ap (long_enough n) (sym (runs-other i b buf e)))
]

-- every byte of a buffer is one and the same of the four filler bytes; an empty buffer is filled by any
abbrev pub is_filled : List ℕ → Bool
is_filled buf = any (λ r. all (λ c. c == r) buf) (65 ∷ 0 ∷ 254 ∷ 255 ∷ [])

-- a buffer is filled with a byte when it starts with it and has the same byte everywhere
filled_with_first :
    (b r : ℕ) (buf : List ℕ)
    → ((b == r) && buf_filled_with (b ∷ buf) b) ≡ all (λ c. c == r) (b ∷ buf)
filled_with_first b r buf = elim (Bool-cases (b == r)) [
  | inl e ↦
      let same : b ≡ r = ground arith in
      let here : (b == b) ≡ true = ground arith in
      rw (e, here) (ap (λ x. all (λ c. c == x) buf) same)
  | inr e ↦ rw e refl
]

any_filled :
    (b : ℕ) (buf fillers : List ℕ)
    → (any (λ r. b == r) fillers && buf_filled_with (b ∷ buf) b)
      ≡ any (λ r. all (λ c. c == r) (b ∷ buf)) fillers
any_filled b buf [] = refl
any_filled b buf (r ∷ fillers) = ground (arith, filled_with_first b r buf, any_filled b buf fillers)

is_filler-is_filled : (buf : List ℕ) → is_filler buf ≡ is_filled buf
is_filler-is_filled [] = refl
is_filler-is_filled (b ∷ buf) = any_filled b buf repeats

-- The strings found in a buffer are its maximal runs of ASCII bytes that are long enough, with their
-- positions and in their order. There are none for a length of zero, in an empty buffer, and in one all
-- of whose bytes are the same filler: `A`, 0, 254 or 255.
pub extract_ascii_strings-runs :
    (buf : List ℕ) (n : ℕ)
    → extract_ascii_strings buf n
      ≡ (if is_filled buf || ltb n 1 then [] else long_enough n (runs 0 buf))
unfolding extract_ascii_strings
extract_ascii_strings-runs buf n =
    ap (λ found. if is_filler buf || ltb n 1 then [] else found)
      (ascii_loop-runs (suc (length buf)) n 0 buf (omega arith))
    ∙ ap (λ (b : Bool). if b || ltb n 1 then [] else long_enough n (runs 0 buf))
        (is_filler-is_filled buf)
