-- ===== src/Incoming/Steps.antt =====
-- One round of the loop of lib/incoming-message-stream.js: what it takes, and what it leaves.
use tedious.Prelude.{ℕ, ◌≤◌, ◌<◌, ◌≡◌, refl, ap, ◌∙◌, Bool, true, false, some, inl, inr, le_or_lt}
use tedious.Prelude.{
  ◌++◌, arith, ltb-true, ltb-false, leb-true, leb-false, not, bit_and, ◌==◌, length, length-append,
  take, drop, length-drop, length-take, take-append, drop-append,
}
use tedious.Buffer.{Buffer, le, be}
use tedious.Buffer.Window.{slice-append}
use tedious.Packet.{packet_type, is_last, data_of}
use tedious.Incoming.{
  Received, Incoming, current_or, deliver, accept, Step, waiting, failed, consumed, sized, step,
}

-- More bytes behind those that are buffered.
abbrev pub extend : Incoming → Buffer → Incoming
extend s more = record s { bl = s.bl ++ more }

bl-deliver :
    (ended : Bool) (bytes : Buffer) (m : Received) (s : Incoming)
    → (deliver ended bytes m s).bl ≡ s.bl
bl-deliver true bytes m s = refl
bl-deliver false bytes m s = refl

deliver-extend :
    (ended : Bool) (bytes : Buffer) (m : Received) (s : Incoming) (more : Buffer)
    → deliver ended bytes m (extend s more) ≡ extend (deliver ended bytes m s) more
deliver-extend true bytes m s more = refl
deliver-extend false bytes m s more = refl

packet_type_total : (packet : Buffer) → 8 ≤ length packet → (t : ℕ) × (packet_type packet ≡ some t)
unfolding packet_type
packet_type_total packet h = (le (take 1 packet), rw (ltb-false (length packet) 1 (omega arith)))

is_last_total : (packet : Buffer) → 8 ≤ length packet → (b : Bool) × (is_last packet ≡ some b)
unfolding is_last
is_last_total packet h = (
  not (bit_and (le (take 1 (drop 1 packet))) 1 == 0),
  rw (ltb-false (length packet) 2 (omega arith)),
)

-- A packet of at least 8 bytes is taken without a RangeError, whatever is buffered behind it.
pub record Accepted (packet : Buffer) (s t : Incoming) : Type 0 where
  pub accepts : accept packet s ≡ some t
  pub with_more : (more : Buffer) → accept packet (extend s more) ≡ some (extend t more)
  pub same_bl : t.bl ≡ s.bl

accept_total :
    (packet : Buffer) (s : Incoming) → 8 ≤ length packet → (t : Incoming) × Accepted packet s t
unfolding accept
accept_total packet s h =
    let (type, et) = packet_type_total packet h in
    let (ended, eb) = is_last_total packet h in
    let m = current_or type s.current in
    (
      deliver ended (data_of packet) m s,
      record {
        accepts = rw (et, eb);
        with_more = λ more. rw (et, eb) (ap some (deliver-extend ended (data_of packet) m s more));
        same_bl = bl-deliver ended (data_of packet) m s;
      },
    )

-- What a round can be, and what it then is on a longer buffer.
pub data Round (s : Incoming) : Step → Type 0 where
  waits : Round s waiting
  fails : ((more : Buffer) → step (extend s more) ≡ failed) → Round s failed
  takes :
      (t : Incoming)
      → length t.bl < length s.bl
      → ((more : Buffer) → step (extend s more) ≡ consumed (extend t more))
      → Round s (consumed t)

pub step-sized :
    (s : Incoming) → 8 ≤ length s.bl → step s ≡ sized (some (be (take 2 (drop 2 s.bl)))) s
unfolding step
step-sized s h = rw (ltb-false (length s.bl) 8 h, ltb-false (length s.bl) 4 (omega arith))

step-sized-extend :
    (s : Incoming) (more : Buffer)
    → 8 ≤ length s.bl
    → step (extend s more) ≡ sized (some (be (take 2 (drop 2 s.bl)))) (extend s more)
step-sized-extend s more h =
    step-sized (extend s more) (omega (arith, length-append s.bl more))
    ∙ ap (λ b. sized (some (be b)) (extend s more)) (slice-append s.bl more 2 2 (omega arith))

step_waiting : (s : Incoming) → length s.bl < 8 → step s ≡ waiting
unfolding step
step_waiting s h = rw (ltb-true (length s.bl) 8 h)

-- The bytes of a packet and of what follows it, with more behind.
sized_takes :
    (n : ℕ) (s : Incoming)
    → 8 ≤ n
    → n ≤ length s.bl
    → (t : Incoming) × (length t.bl < length s.bl)
      × (sized (some n) s ≡ consumed t)
      × ((more : Buffer) → sized (some n) (extend s more) ≡ consumed (extend t more))
sized_takes n s big fits =
    let rest : Incoming = record s { bl = drop n s.bl } in
    let (t, a) = accept_total (take n s.bl) rest (omega (arith, length-take n s.bl)) in
    (
      t,
      rw a.same_bl (omega (arith, length-drop n s.bl)),
      rw (ltb-false n 8 big, leb-true n (length s.bl) fits, a.accepts),
      λ more. rw (
        ltb-false n 8 big,
        leb-true n (length (s.bl ++ more)) (omega (arith, length-append s.bl more)),
        take-append n s.bl more fits,
        drop-append n s.bl more fits,
        a.with_more more,
      ),
    )

rounds_sized :
    (n : ℕ) (s : Incoming)
    → ((more : Buffer) → step (extend s more) ≡ sized (some n) (extend s more))
    → Round s (sized (some n) s)
rounds_sized n s e = elim (le_or_lt 8 n) [
  | inr small ↦ rw (ltb-true n 8 small) (fails (λ more. e more ∙ rw (ltb-true n 8 small)))
  | inl big ↦ elim (le_or_lt n (length s.bl)) [
    | inr short ↦ rw (ltb-false n 8 big, leb-false n (length s.bl) short) waits
    | inl fits ↦
        let (t, shorter, now, later) = sized_takes n s big fits in
        rw now (takes t shorter (λ more. e more ∙ later more))
  ]
]

pub rounds : (s : Incoming) → Round s (step s)
rounds s = elim (le_or_lt 8 (length s.bl)) [
  | inr short ↦ rw (step_waiting s short) waits
  | inl long ↦
      rw (step-sized s long)
        (rounds_sized (be (take 2 (drop 2 s.bl))) s (λ more. step-sized-extend s more long))
]
