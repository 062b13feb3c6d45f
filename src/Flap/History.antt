-- ===== src/Flap/History.antt =====
-- The history of the clipped ticks: the last hundred.
use marine_robotics_hil_sea.Base.{
  ℕ, suc, ◌+◌, ◌-◌, ◌≤◌, ◌<◌, ◌≡◌, refl, ap, sym, ◌∙◌, Bool, Bool-cases, inl, inr, arith, List, [],
  ◌∷◌, ◌++◌, length, length-append, drop, ltb, ltb→lt,
}
use marine_robotics_hil_sea.Flap.Defs.{record_clip}

append_nil : (xs : List Bool) → xs ++ [] ≡ xs
append_nil [] = refl
append_nil (x ∷ xs) = ap (◌∷◌ x) (append_nil xs)

append_one : (xs : List Bool) (y : Bool) (ys : List Bool) → (xs ++ y ∷ []) ++ ys ≡ xs ++ y ∷ ys
append_one [] y ys = refl
append_one (x ∷ xs) y ys = ap (◌∷◌ x) (append_one xs y ys)

-- The history after a sequence of ticks.
pub record_all : List Bool → List Bool → List Bool
record_all history [] = history
record_all history (b ∷ bs) = record_all (record_clip history b) bs

-- The last `n` elements.
abbrev pub last : ℕ → List Bool → List Bool
last n xs = drop (length xs - n) xs

last_short : (n : ℕ) (xs : List Bool) → length xs ≤ n → last n xs ≡ xs
last_short n xs h = let e : length xs - n ≡ 0 = omega arith in ap (λ k. drop k xs) e

last_longer : (n : ℕ) (x : Bool) (xs : List Bool) → n ≤ length xs → last n (x ∷ xs) ≡ last n xs
last_longer n x xs h =
    let e : suc (length xs) - n ≡ suc (length xs - n) = omega arith in ap (λ k. drop k (x ∷ xs)) e

record_clip-room :
    (history : List Bool) (b : Bool)
    → length history < 100
    → record_clip history b ≡ history ++ b ∷ []
unfolding record_clip
record_clip-room history b h = ground (arith, length-append history (b ∷ []))

record_clip-full :
    (first : Bool) (rest : List Bool) (b : Bool)
    → length rest ≡ 99
    → record_clip (first ∷ rest) b ≡ rest ++ b ∷ []
unfolding record_clip
record_clip-full first rest b h = ground (arith, length-append rest (b ∷ []))

length-append_one : (xs : List Bool) (y : Bool) → length (xs ++ y ∷ []) ≡ length xs + 1
length-append_one xs y = length-append xs (y ∷ [])

record_all_room :
    (history : List Bool) (b : Bool) (bs : List Bool)
    → length history < 100
    → record_all (history ++ b ∷ []) bs ≡ last 100 ((history ++ b ∷ []) ++ bs)
    → record_all history (b ∷ bs) ≡ last 100 (history ++ b ∷ bs)
unfolding record_all
record_all_room history b bs h rest =
    ap (λ k. record_all k bs) (record_clip-room history b h)
    ∙ rest
    ∙ ap (last 100) (append_one history b bs)

record_all_full :
    (first : Bool) (others : List Bool) (b : Bool) (bs : List Bool)
    → length others ≡ 99
    → record_all (others ++ b ∷ []) bs ≡ last 100 ((others ++ b ∷ []) ++ bs)
    → record_all (first ∷ others) (b ∷ bs) ≡ last 100 (first ∷ others ++ b ∷ bs)
unfolding record_all
record_all_full first others b bs h rest =
    ap (λ k. record_all k bs) (record_clip-full first others b h)
    ∙ rest
    ∙ ap (last 100) (append_one others b bs)
    ∙ sym (last_longer 100 first (others ++ b ∷ bs) (omega (arith, length-append others (b ∷ bs))))

record_all_from :
    (history bs : List Bool)
    → length history ≤ 100
    → record_all history bs ≡ last 100 (history ++ bs)
unfolding record_all
record_all_from history [] h = sym (ap (last 100) (append_nil history) ∙ last_short 100 history h)
record_all_from [] (b ∷ bs) h =
    record_all_room [] b bs (omega arith) (record_all_from (b ∷ []) bs (omega arith))
record_all_from (first ∷ others) (b ∷ bs) h = elim (Bool-cases (ltb (length others) 99)) [
  | inl room ↦
      record_all_room (first ∷ others) b bs (ground (arith, ltb→lt (length others) 99 room)) (
        record_all_from (first ∷ others ++ b ∷ []) bs
          (ground (arith, ltb→lt (length others) 99 room, length-append_one others b)))
  | inr full ↦
      record_all_full first others b bs (ground (arith, full))
        (record_all_from (others ++ b ∷ []) bs (omega (arith, h, length-append_one others b)))
]

-- From an empty history on, the history is the last hundred ticks, in their order; all of them, if
-- there are fewer.
pub record_all-last : (bs : List Bool) → record_all [] bs ≡ last 100 bs
record_all-last bs = record_all_from [] bs (omega arith)
