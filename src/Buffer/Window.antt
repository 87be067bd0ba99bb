-- ===== src/Buffer/Window.antt =====
-- Slices of a buffer to which bytes are added, behind it or in front of it (with the offset moved
-- along).
use tedious.Prelude.{ℕ, ◌+◌, ◌-◌, ◌≤◌, ◌≡◌, ap, ◌++◌, arith}
use tedious.Prelude.{length, take, drop, ltb, length-append, length-drop, length-take, drop-append}
use tedious.Prelude.{take-append, drop-add_length}
use tedious.Buffer.{Buffer, slice}

pub slice-append :
    (buf more : Buffer) (offset w : ℕ)
    → offset + w ≤ length buf
    → slice (buf ++ more) offset (offset + w) ≡ slice buf offset (offset + w)
slice-append buf more offset w h = rw (drop-append offset buf more (omega arith)) (
    take-append (offset + w - offset) (drop offset buf) more
      (omega (arith, length-drop offset buf)))

pub slice-shift :
    (front buf : Buffer) (offset w : ℕ)
    → slice (front ++ buf) (length front + offset) (length front + offset + w)
      ≡ slice buf offset (offset + w)
slice-shift front buf offset w =
    rw (drop-add_length front buf offset) (ap (λ n. take n (drop offset buf)) (omega arith))

pub length-slice :
    (buf : Buffer) (offset w : ℕ)
    → offset + w ≤ length buf
    → length (slice buf offset (offset + w)) ≡ w
length-slice buf offset w h =
    omega (arith, length-take (offset + w - offset) (drop offset buf), length-drop offset buf)

pub ltb-shift :
    (front buf : Buffer) (n : ℕ)
    → ltb (length (front ++ buf)) (length front + n) ≡ ltb (length buf) n
ltb-shift front buf n = ground (arith, length-append front buf)
