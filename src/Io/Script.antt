-- ===== src/Io/Script.antt =====
-- A socket's input as a script of arrivals, for tests and as an instance of the interface.
use libagent.Base.{
  ℕ, ◌<◌, refl, inl, inr, List, [], ◌∷◌, ◌++◌, append_assoc, arith, leb, if◌then◌else◌, leb→le,
  Bool-cases, length, take, drop, take-append-drop, length-take, length-drop,
}
use libagent.Text.{Bytes}
use libagent.Io.{Fault, Read, got, fault, Delivery, IsSource}

-- Bytes that arrive together, or an error.
pub data Arrival : Type 0 where
  segment : Bytes → Arrival
  failure : Fault → Arrival

abbrev pub Stream : Type 0
Stream = List Arrival

-- A read takes a segment, or as much of it as the buffer holds.
unfoldable pub receive : ℕ → Stream → Read Stream
receive n [] = got [] []
receive n (failure f ∷ s) = fault f s
receive n (segment bs ∷ s) =
    if leb (length bs) n then got bs s else got (take n bs) (segment (drop n bs) ∷ s)

-- No arrival is an error or empty.
abbrev pub IsLive : Stream → Type 0
IsLive [] = Unit
IsLive (segment bs ∷ s) = (0 < length bs) × IsLive s
IsLive (failure f ∷ s) = ⊥

abbrev pub content : Stream → Bytes
content [] = []
content (segment bs ∷ s) = bs ++ content s
content (failure f ∷ s) = []

deliver : (n : ℕ) (s : Stream) → 0 < n → IsLive s → Delivery receive IsLive content n s
unfolding receive
deliver n [] h l = record {
  piece = [];
  after = [];
  reads = refl;
  live = tt;
  splits = refl;
  fits = omega arith;
  progress = λ p. p;
}
deliver n (failure f ∷ s) h l = absurd l
deliver n (segment bs ∷ s) h (p, l) = elim (Bool-cases (leb (length bs) n)) [
  | inl e ↦ record {
    piece = bs;
    after = s;
    reads = rw e;
    live = l;
    splits = refl;
    fits = leb→le _ _ e;
    progress = λ _. p;
  }
  | inr e ↦ record {
    piece = take n bs;
    after = segment (drop n bs) ∷ s;
    reads = rw e;
    live = (ground (arith, length-drop n bs), l);
    splits = rw (← append_assoc) (rw (take-append-drop n bs));
    fits = ground (arith, length-take n bs);
    progress = λ _. ground (arith, length-take n bs);
  }
]

-- The script is a source.
pub receive-IsSource : IsSource receive IsLive content
receive-IsSource = record { deliver = deliver }
