-- ===== src/TcpConnection/Reassembly/Hold.antt =====
-- What the receive buffer holds at an offset from the next expected sequence number, and how the
-- gaps that `insertReassemblyFragment` computes cover an offset.
use wirestack.Common.{ℕ, ◌+◌, ◌-◌, ◌^◌, ◌≤◌, ◌<◌, ◌≡◌, refl, ap, ◌∙◌, sym}
use wirestack.Common.{Bool, false, ◌&&◌, ◌||◌, List, [], ◌∷◌, ◌++◌, arith, length, take, drop}
use wirestack.Common.{
  if◌then◌else◌, inl, inr, Bool-cases, leb, ltb, ◌==◌, All, All-append, take-append-drop,
  length-take, length-drop,
}
use wirestack.Bytes.{u32}
use wirestack.TcpConnection.Sequence.{sub32}
use wirestack.TcpConnection.State.{TcpReassemblyFragment}
use wirestack.TcpConnection.Reassembly.{split_gap, split_gaps, subtract_fragments}

-- `f` of the byte at offset `o`, for bytes that start at offset `start`; 0 if they do not reach it.
unfoldable pub byte_held : (ℕ → ℕ) → ℕ → ℕ → List ℕ → ℕ
byte_held f o start [] = 0
byte_held f o start (b ∷ bytes) = (if start == o then f b else 0) + byte_held f o (start + 1) bytes

-- The sum of that over the fragments, so all that they hold at the offset.
unfoldable pub held_at : (ℕ → ℕ) → ℕ → ℕ → List TcpReassemblyFragment → ℕ
held_at f base o [] = 0
held_at f base o (fragment ∷ fragments) =
    byte_held f o (sub32 fragment.sequence_start base) fragment.payload + held_at f base o fragments

abbrev pub in_range : ℕ → ℕ → ℕ → Bool
in_range o s e = leb s o && ltb o e

-- Whether a fragment covers the offset.
unfoldable pub covered : ℕ → ℕ → List TcpReassemblyFragment → Bool
covered base o [] = false
covered base o (fragment ∷ fragments) =
    let start = sub32 fragment.sequence_start base in
    in_range o start (start + length fragment.payload) || covered base o fragments

-- A fragment's end does not wrap around past the next expected number.
unfoldable pub Fits : ℕ → TcpReassemblyFragment → Type 0
Fits base fragment = sub32 fragment.sequence_start base + length fragment.payload < 2 ^ 32

-- `weight` for each gap over the offset.
unfoldable pub gaps_at : ℕ → ℕ → List (ℕ × ℕ) → ℕ
gaps_at weight o [] = 0
gaps_at weight o ((s, e) ∷ gaps) = (if in_range o s e then weight else 0) + gaps_at weight o gaps

unfoldable pub IsWithin : ℕ → ℕ → ℕ × ℕ → Type 0
IsWithin lo hi gap = (lo ≤ gap.0) × (gap.1 ≤ hi)

pub byte_held-before :
    (f : ℕ → ℕ) (o start : ℕ) (bytes : List ℕ) → o < start → byte_held f o start bytes ≡ 0
unfolding byte_held
byte_held-before f o start [] h = refl
byte_held-before f o start (b ∷ bytes) h =
    ground (arith, byte_held-before f o (start + 1) bytes (omega arith))

pub byte_held-after :
    (f : ℕ → ℕ) (o start : ℕ) (bytes : List ℕ)
    → start + length bytes ≤ o
    → byte_held f o start bytes ≡ 0
unfolding byte_held
byte_held-after f o start [] h = refl
byte_held-after f o start (b ∷ bytes) h =
    ground (arith, byte_held-after f o (start + 1) bytes (omega arith))

pub byte_held-append :
    (f : ℕ → ℕ) (o start : ℕ) (xs ys : List ℕ)
    → byte_held f o start (xs ++ ys) ≡ byte_held f o start xs + byte_held f o (start + length xs) ys
unfolding byte_held
byte_held-append f o start [] ys =
    let same : byte_held f o start ys ≡ byte_held f o (start + 0) ys =
      ap (λ n. byte_held f o n ys) (omega arith) in
    omega (arith, same)
byte_held-append f o start (b ∷ xs) ys =
    let tail = byte_held-append f o (start + 1) xs ys in
    let shift : byte_held f o (start + 1 + length xs) ys
        ≡ byte_held f o (start + length (b ∷ xs)) ys =
      ap (λ n. byte_held f o n ys) (omega arith) in
    ground arith

byte_held-split :
    (f : ℕ → ℕ) (o start n : ℕ) (bytes : List ℕ)
    → n ≤ length bytes
    → byte_held f o start bytes
      ≡ byte_held f o start (take n bytes) + byte_held f o (start + n) (drop n bytes)
byte_held-split f o start n bytes h =
    let fits : length (take n bytes) ≡ n = omega (arith, length-take n bytes) in
    ap (byte_held f o start) (sym (take-append-drop n bytes))
    ∙ byte_held-append f o start (take n bytes) (drop n bytes)
    ∙ ap (λ k. byte_held f o start (take n bytes) + byte_held f o (start + k) (drop n bytes)) fits

-- The piece of the bytes from `s` to `e`, at its own offset.
pub byte_held-piece :
    (f : ℕ → ℕ) (o start s e : ℕ) (bytes : List ℕ)
    → start ≤ s
    → s ≤ e
    → e ≤ start + length bytes
    → byte_held f o s (take (e - s) (drop (s - start) bytes))
      ≡ (if in_range o s e then byte_held f o start bytes else 0)
byte_held-piece f o start s e bytes h k l =
    let later = drop (s - start) bytes in
    let left : length later ≡ length bytes - (s - start) = length-drop (s - start) bytes in
    let first = byte_held-split f o start (s - start) bytes (omega arith) in
    let there : byte_held f o (start + (s - start)) later ≡ byte_held f o s later =
      ap (λ n. byte_held f o n later) (omega arith) in
    let second = byte_held-split f o s (e - s) later (omega arith) in
    let cut : length (take (s - start) bytes) ≡ s - start =
      omega (arith, length-take (s - start) bytes) in
    let kept : length (take (e - s) later) ≡ e - s = omega (arith, length-take (e - s) later) in
    elim (Bool-cases (leb s o)) [
      | inr early ↦ ground (arith, byte_held-before f o s (take (e - s) later) (ground arith))
      | inl from ↦
          let gone = byte_held-after f o start (take (s - start) bytes) (ground arith) in
          elim (Bool-cases (ltb o e)) [
            | inl inside ↦
                ground
                  (arith, byte_held-before f o (s + (e - s)) (drop (e - s) later) (ground arith))
            | inr late ↦ ground (arith, byte_held-after f o s (take (e - s) later) (ground arith))
          ]
    ]

pub held_at-append :
    (f : ℕ → ℕ) (base o : ℕ) (xs ys : List TcpReassemblyFragment)
    → held_at f base o (xs ++ ys) ≡ held_at f base o xs + held_at f base o ys
unfolding held_at
held_at-append f base o [] ys = omega arith
held_at-append f base o (x ∷ xs) ys = omega (arith, held_at-append f base o xs ys)

gaps_at-append :
    (weight o : ℕ) (xs ys : List (ℕ × ℕ))
    → gaps_at weight o (xs ++ ys) ≡ gaps_at weight o xs + gaps_at weight o ys
unfolding gaps_at
gaps_at-append weight o [] ys = omega arith
gaps_at-append weight o (x ∷ xs) ys = ground (arith, gaps_at-append weight o xs ys)

-- A fragment takes exactly the offsets that it covers out of the gaps.
gaps_at-split_gap :
    (weight o f_start f_end s e : ℕ)
    → f_start ≤ f_end
    → gaps_at weight o (split_gap f_start f_end s e)
      ≡ (if in_range o f_start f_end then 0 else if in_range o s e then weight else 0)
unfolding split_gap gaps_at
gaps_at-split_gap weight o f_start f_end s e h = ground arith

gaps_at-split_gaps :
    (weight o f_start f_end : ℕ) (gaps : List (ℕ × ℕ))
    → f_start ≤ f_end
    → gaps_at weight o (split_gaps f_start f_end gaps)
      ≡ (if in_range o f_start f_end then 0 else gaps_at weight o gaps)
unfolding split_gaps gaps_at
gaps_at-split_gaps weight o f_start f_end [] h = ground arith
gaps_at-split_gaps weight o f_start f_end ((s, e) ∷ gaps) h =
    let parts = split_gap f_start f_end s e in
    let one = gaps_at-split_gap weight o f_start f_end s e h in
    let rest = gaps_at-split_gaps weight o f_start f_end gaps h in
    let both = gaps_at-append weight o parts (split_gaps f_start f_end gaps) in ground arith

pub gaps_at-subtract_fragments :
    (weight base o : ℕ) (fragments : List TcpReassemblyFragment) (gaps : List (ℕ × ℕ))
    → All (Fits base) fragments
    → gaps_at weight o (subtract_fragments base fragments gaps)
      ≡ (if covered base o fragments then 0 else gaps_at weight o gaps)
unfolding subtract_fragments covered Fits
gaps_at-subtract_fragments weight base o [] gaps h = refl
gaps_at-subtract_fragments weight base o (fragment ∷ fragments) gaps h =
    let start = sub32 fragment.sequence_start base in
    let end = u32 (start + length fragment.payload) in
    let exact : end ≡ start + length fragment.payload = omega (arith, h.0) in
    let one = gaps_at-split_gaps weight o start end gaps (omega arith) in
    let rest = gaps_at-subtract_fragments weight base o fragments (split_gaps start end gaps) h.1 in
    ground (arith, exact, one, rest)

-- The gaps stay within the range that they start from.
split_gap-IsWithin :
    (lo hi f_start f_end s e : ℕ)
    → IsWithin lo hi (s, e)
    → All (IsWithin lo hi) (split_gap f_start f_end s e)
unfolding split_gap IsWithin
split_gap-IsWithin lo hi f_start f_end s e h = ground arith

split_gaps-IsWithin :
    (lo hi f_start f_end : ℕ) (gaps : List (ℕ × ℕ))
    → All (IsWithin lo hi) gaps
    → All (IsWithin lo hi) (split_gaps f_start f_end gaps)
unfolding split_gaps
split_gaps-IsWithin lo hi f_start f_end [] h = h
split_gaps-IsWithin lo hi f_start f_end ((s, e) ∷ gaps) h =
    All-append (IsWithin lo hi) (split_gap f_start f_end s e) (split_gaps f_start f_end gaps)
      (split_gap-IsWithin lo hi f_start f_end s e h.0)
      (split_gaps-IsWithin lo hi f_start f_end gaps h.1)

pub subtract_fragments-IsWithin :
    (lo hi base : ℕ) (fragments : List TcpReassemblyFragment) (gaps : List (ℕ × ℕ))
    → All (IsWithin lo hi) gaps
    → All (IsWithin lo hi) (subtract_fragments base fragments gaps)
unfolding subtract_fragments
subtract_fragments-IsWithin lo hi base [] gaps h = h
subtract_fragments-IsWithin lo hi base (fragment ∷ fragments) gaps h =
    let start = sub32 fragment.sequence_start base in
    let end = u32 (start + length fragment.payload) in
    subtract_fragments-IsWithin lo hi base fragments (split_gaps start end gaps)
      (split_gaps-IsWithin lo hi start end gaps h)
