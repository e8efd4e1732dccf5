-- ===== src/Proto/Name/Stable.antt =====
-- What lies in a buffer stays there when the buffer grows.
use dnser.Base.{
  ℕ, ◌-◌, ◌≤◌, refl, ap, ◌∙◌, List, ◌∷◌, ◌++◌, length, length-append, length-drop, arith,
  append_assoc, drop-append_le, drop-append,
}
use dnser.Base.Bytes.{Bytes}
use dnser.Proto.Name.{Holds, NameAt, root, label_at, pointer_at}

pub Holds-bounds :
    {buf : Bytes} {pos : ℕ} {bytes : Bytes} → Holds buf pos bytes → length bytes ≤ length buf - pos
Holds-bounds {buf} {pos} {bytes} h =
    omega (arith, ap length h.ahead, length-drop pos buf, length-append bytes h.rest)

pub Holds-append :
    {buf : Bytes} {pos b : ℕ} {bs : Bytes} (more : Bytes)
    → Holds buf pos (b ∷ bs)
    → Holds (buf ++ more) pos (b ∷ bs)
Holds-append {buf} {pos} {b} {bs} more h = record {
  rest = h.rest ++ more;
  ahead =
      drop-append_le pos buf more (omega (arith, Holds-bounds h))
      ∙ ap (λ (t : Bytes). t ++ more) h.ahead
      ∙ append_assoc (b ∷ bs) h.rest more;
}

pub NameAt-append :
    {buf : Bytes} {pos after jumps : ℕ} {labels : List Bytes} (more : Bytes)
    → NameAt buf pos after jumps labels
    → NameAt (buf ++ more) pos after jumps labels
NameAt-append more (root h e j) = root (Holds-append more h) e j
NameAt-append more (label_at h e n) = label_at (Holds-append more h) e (NameAt-append more n)
NameAt-append more (pointer_at t h e j n) =
    pointer_at t (Holds-append more h) e j (NameAt-append more n)

-- What was just appended lies at the old end.
pub Holds-end : (buf bytes : Bytes) (more : Bytes) → Holds (buf ++ bytes ++ more) (length buf) bytes
Holds-end buf bytes more = record {
  rest = more;
  ahead = rw append_assoc (drop-append buf (bytes ++ more) (length buf) refl);
}
