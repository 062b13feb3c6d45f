-- ===== src/Can/Sequence.antt =====
-- Signals written in ascending order are all read back, although each write may spill its
-- indeterminate bits over the ones above it.
use marine_robotics_hil_sea.Base.{
  ℕ, ◌+◌, ◌^◌, ◌≤◌, ◌<◌, ◌≡◌, refl, ◌∙◌, true, arith, List, [], ◌∷◌, All,
}
use marine_robotics_hil_sea.Can.Signal.{Word, can_set_signal_raw}
use marine_robotics_hil_sea.Can.Layout.{Put, put_all, Garbage, get}
use marine_robotics_hil_sea.Can.Codec.{get-set, get-set_below}

-- The calls write disjoint signals in ascending order, within the payload, with values that fit.
abbrev pub IsLaid : ℕ → List Put → Type 0
IsLaid from [] = Unit
IsLaid from (c ∷ cs) =
    (from ≤ c.start)
    × (c.start + c.len ≤ 64)
    × (c.len ≤ c.size)
    × (c.size ≤ 64)
    × (c.value < 2 ^ c.len)
    × IsLaid (c.start + c.len) cs

-- Every value fits its signal.
abbrev pub Fits : List Put → Type 0
Fits = All (λ c. c.value < 2 ^ c.len)

get-put_all_below :
    (g : Garbage) (cs : List Put) (buf : Word) (from size start len : ℕ)
    → IsLaid from cs
    → start + len ≤ from
    → get size (put_all g cs buf) start len ≡ get size buf start len
unfolding put_all
get-put_all_below g [] buf from size start len laid below = refl
get-put_all_below g (c ∷ cs) buf from size start len (a, fits, wide, word, small, rest) below =
    get-put_all_below g cs _ (c.start + c.len) size start len rest (omega arith)
    ∙ get-set_below (g c.start) c.size size buf c.value c.start c.len start len fits (omega arith)

-- After a sequence of writes of disjoint little-endian signals in ascending order, within the payload
-- and with values that fit, every signal reads as the value that was written, whatever the payload
-- held and the indeterminate bits are.
pub put_all-reads :
    (g : Garbage) (cs : List Put) (buf : Word) (from : ℕ)
    → IsLaid from cs
    → All (λ c. get c.size (put_all g cs buf) c.start c.len ≡ c.value) cs
unfolding put_all
put_all-reads g [] buf from laid = tt
put_all-reads g (c ∷ cs) buf from (a, fits, wide, word, small, rest) =
    let buf' = can_set_signal_raw (g c.start) c.size buf c.value c.start c.len true in
    (
      get-put_all_below g cs buf' (c.start + c.len) c.size c.start c.len rest (omega arith)
          ∙ get-set (g c.start) c.size buf c.value c.start c.len true fits wide word small,
      put_all-reads g cs buf' (c.start + c.len) rest,
    )
