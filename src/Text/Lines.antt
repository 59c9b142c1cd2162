-- ===== src/Text/Lines.antt =====
-- The lines of a text: what `find('\n')` and `drain(..=newline)` take off it one by one.
use inference_data_plane.Prelude.{
  ℕ, ◌≡◌, refl, ap, sym, ◌∙◌, cons-ne-nil, ◌<◌, Option, none, some, List, [], ◌∷◌, ◌++◌, arith, eqb,
  length, Bool-cases, All, ◌≢◌, inl, inr, false, if◌then◌else◌,
}
use inference_data_plane.Text.{Text}
use inference_data_plane.Text.Split.{split_once, add_front}

push_front : ℕ → List Text × Text → List Text × Text
push_front c ([], t) = ([], c ∷ t)
push_front c (l ∷ ls, t) = ((c ∷ l) ∷ ls, t)

-- The lines that are ended by the mark, and what follows the last of them.
unfoldable pub split_lines : ℕ → Text → List Text × Text
unfolding push_front
split_lines mark [] = ([], [])
split_lines mark (c ∷ s) =
    let (ls, t) = split_lines mark s in if eqb c mark then ([] ∷ ls, t) else push_front c (ls, t)

push_front-append :
    (mark c : ℕ) (b : Text) (s : List Text × Text)
    → eqb c mark ≡ false
    → push_front c (let (ls, t) = s in let (ms, u) = split_lines mark (t ++ b) in (ls ++ ms, u))
      ≡ (let (ls, t) = push_front c s in let (ms, u) = split_lines mark (t ++ b) in (ls ++ ms, u))
unfolding split_lines push_front
push_front-append mark c b ([], t) h = rw h refl
push_front-append mark c b (l ∷ ls, t) h = refl

-- What `split_once` says of the lines.
abbrev pub Splits : ℕ → Text → Option (Text × Text) → Type 0
Splits mark s none = (split_lines mark s ≡ ([], s)) × All (λ c. c ≢ mark) s
Splits mark s (some (line, rest)) =
    (split_lines mark s ≡ (let (ls, t) = split_lines mark rest in (line ∷ ls, t)))
    × (length rest < length s)

add_front-Splits :
    (mark c : ℕ) (s : Text) (o : Option (Text × Text))
    → eqb c mark ≡ false
    → Splits mark s o
    → Splits mark (c ∷ s) (add_front c o)
unfolding split_lines push_front add_front
add_front-Splits mark c s none h k = rw (h, k.0) (refl, (ground (arith, h), k.1))
add_front-Splits mark c s (some (line, rest)) h k = rw (h, k.0) (refl, omega (arith, k.1))

pub split_once-Splits : (mark : ℕ) (s : Text) → Splits mark s (split_once mark s)
unfolding split_once split_lines
split_once-Splits mark [] = (refl, tt)
split_once-Splits mark (c ∷ s) = elim (Bool-cases (eqb c mark)) [
  | inl h ↦ rw h (rw h refl, omega arith)
  | inr h ↦ rw h (add_front-Splits mark c s (split_once mark s) h (split_once-Splits mark s))
]

-- The lines of a text that arrives in two parts.
pub split_lines-append :
    (mark : ℕ) (a b : Text)
    → split_lines mark (a ++ b) ≡ (
        let (ls, t) = split_lines mark a in
        let (ms, u) = split_lines mark (t ++ b) in (ls ++ ms, u))
unfolding split_lines
split_lines-append mark [] b = refl
split_lines-append mark (c ∷ a) b = elim (Bool-cases (eqb c mark)) [
  | inl h ↦ rw (h, split_lines-append mark a b) refl
  | inr h ↦ rw (h, split_lines-append mark a b) (push_front-append mark c b (split_lines mark a) h)
]

push_front-left :
    (mark c : ℕ) (s : List Text × Text)
    → eqb c mark ≡ false
    → split_lines mark s.1 ≡ ([], s.1)
    → split_lines mark (push_front c s).1 ≡ ([], (push_front c s).1)
unfolding push_front split_lines
push_front-left mark c ([], t) h k = rw (h, k) refl
push_front-left mark c (l ∷ ls, t) h k = k

-- What is left has no line.
pub split_lines-left :
    (mark : ℕ) (s : Text) → split_lines mark (split_lines mark s).1 ≡ ([], (split_lines mark s).1)
unfolding split_lines
split_lines-left mark [] = refl
split_lines-left mark (c ∷ s) = elim (Bool-cases (eqb c mark)) [
  | inl h ↦ rw h (split_lines-left mark s)
  | inr h ↦ rw h (push_front-left mark c (split_lines mark s) h (split_lines-left mark s))
]

Splits-unmarked :
    (mark : ℕ) (s : Text) (o : Option (Text × Text))
    → Splits mark s o
    → split_lines mark s ≡ ([], s)
    → All (λ c. c ≢ mark) s
Splits-unmarked mark s none h k = h.1
Splits-unmarked mark s (some (line, rest)) h k = absurd (cons-ne-nil (ap (λ p. p.0) (sym h.0 ∙ k)))

-- What is left has no mark.
pub split_lines-unmarked : (mark : ℕ) (s : Text) → All (λ c. c ≢ mark) (split_lines mark s).1
split_lines-unmarked mark s =
    let left = (split_lines mark s).1 in
    Splits-unmarked mark left (split_once mark left) (split_once-Splits mark left)
      (split_lines-left mark s)
