-- ===== src/Gateway/Stream/Polls.antt =====
-- crates/yb-gateway/src/service.rs, `translate_stream`: the loop of a poll ends, and so does the stream.
use sovereign_gateway.Base.{
  ℕ, zero, suc, ◌<◌, String, ◌≡◌, refl, ap, ◌∙◌, ◌⊎◌, inl, inr, Bool, true, false, not, ◌&&◌, List,
  [], ◌∷◌, ◌++◌, arith, if◌then◌else◌, Bool-cases, length, is_nil, drop, ◌+◌,
}
use sovereign_gateway.Gateway.Stream.{
  Yield, Codec, poll, opened, end_answer, relay, read_lines, receive, Read, advance_read, advance,
  StreamState, poll_for, drive, yielded, file, read_line, next_or_stall, continue, ends_stream,
  close, ended, arrived, broken, stalled,
}
use sovereign_gateway.Wire.Response.{StreamEvent}
use sovereign_gateway.Gateway.Lines.{split_lines}
use sovereign_gateway.Gateway.Stream.Filings.{
  advance-open, drive-IsAccounted, advance-over, advance-stopped,
}
use sovereign_gateway.Core.Formats.{WireFormat}

-- A poll that has an answer for its caller.
abbrev pub IsSettled : Yield → Type 0
IsSettled continue = ⊥
IsSettled (yielded item) = Unit
IsSettled ended = Unit

module _ (c : Codec) where
  end_answer-upstream :
      (bytes : List ℕ) (events : List StreamEvent) (st : StreamState c)
      → (end_answer c bytes events st).upstream ≡ st.upstream
  unfolding end_answer file
  end_answer-upstream bytes events st =
      elim (Bool-cases (not st.recorded && ends_stream c st.surface bytes events)) [
        | inl q ↦ simp q refl
        | inr q ↦ simp q refl
      ]

  relay-upstream :
      (events : List StreamEvent) (st : StreamState c)
      → (relay c events st).0.upstream ≡ st.upstream
  unfolding relay
  relay-upstream events st = elim (Bool-cases (is_nil (c.encode st.encoder events).1)) [
    | inl q ↦ rw q refl
    | inr q ↦ rw q (
        end_answer-upstream (c.encode st.encoder events).1 events (record st {
          encoder = (c.encode st.encoder events).0;
          response_bytes = st.response_bytes + length (c.encode st.encoder events).1;
        }))
  ]

  read_lines-upstream :
      (at : ℕ) (lines : List (List ℕ)) (st : StreamState c)
      → (read_lines c at lines st).0.upstream ≡ st.upstream
  unfolding read_lines read_line
  read_lines-upstream at [] st = refl
  read_lines-upstream at (line ∷ lines) st = read_lines-upstream at lines _

  receive-upstream :
      (at : ℕ) (chunk : List ℕ) (st : StreamState c)
      → (receive c at chunk st).0.upstream ≡ st.upstream
  unfolding receive
  receive-upstream at chunk st =
      let (lines, rest) = split_lines (st.buf ++ chunk) in
      let read = read_lines c at lines (record st { buf = rest }) in
      elim (Bool-cases (is_nil read.1)) [
        | inl q ↦ rw q (read_lines-upstream at lines (record st { buf = rest }))
        | inr q ↦
            rw q (
              relay-upstream read.1 read.0
              ∙ read_lines-upstream at lines (record st { buf = rest }))
      ]

  -- The stream is over and that was not silent, or a read of the upstream is used up.
  abbrev IsProgress : List Read → StreamState c × Yield → Type 0
  IsProgress upstream (st, y) =
      ((st.is_done ≡ true) × IsSettled y) ⊎ (suc (length st.upstream) ≡ length upstream)

  read-IsProgress :
      (upstream : List Read) (st : StreamState c)
      → st.upstream ≡ drop 1 upstream
      → IsProgress upstream (advance_read c (next_or_stall upstream) st)
  unfolding advance_read next_or_stall file close
  read-IsProgress [] st e = inl (refl, tt)
  read-IsProgress (arrived at chunk ∷ upstream) st e =
      inr (ap (λ l. suc (length l)) (receive-upstream at chunk st ∙ e))
  read-IsProgress (broken e ∷ upstream) st _ = inl (refl, tt)
  read-IsProgress (stalled ∷ upstream) st _ = inl (refl, tt)

  stopped_done :
      (b : Bool) (st : StreamState c)
      → st.is_done ≡ true
      → (if b then st else file c st.status false st).is_done ≡ true
  unfolding file
  stopped_done true st d = d
  stopped_done false st d = d

  over-IsProgress : (st : StreamState c) → st.is_done ≡ true → IsProgress st.upstream (advance c st)
  over-IsProgress st d = rw (advance-stopped c st d) (inl (stopped_done st.recorded st d, tt))

  advance-IsProgress : (st : StreamState c) → IsProgress st.upstream (advance c st)
  advance-IsProgress st = elim (Bool-cases st.is_done) [
    | inl d ↦ over-IsProgress st d
    | inr d ↦
        rw (advance-open c st d)
          (read-IsProgress st.upstream (record st { upstream = drop 1 st.upstream }) refl)
  ]

  poll_for-IsSettled :
      (rounds : ℕ) (st : StreamState c)
      → length st.upstream < rounds
      → IsSettled (poll_for c rounds st).1
  unfolding poll_for
  poll_for-IsSettled zero st h = absurd (omega arith)
  poll_for-IsSettled (suc rounds) st h =
      on_yield (λ st1 k. poll_for-IsSettled rounds st1 k) (advance c st) (advance-IsProgress st)
    where
      on_yield :
          ((st1 : StreamState c)
            → length st1.upstream < rounds
            → IsSettled (poll_for c rounds st1).1)
          → (r : StreamState c × Yield) → IsProgress st.upstream r
          → IsSettled
              (elim r.1 as (λ _. StreamState c × Yield) [
                | continue ↦ poll_for c rounds r.0
                | yielded item ↦ (r.0, yielded item)
                | ended ↦ (r.0, ended)
              ]).1
      on_yield rest (st1, continue) (inl (d, h)) = absurd h
      on_yield rest (st1, continue) (inr e) = rest st1 (omega arith)
      on_yield rest (st1, yielded item) p = tt
      on_yield rest (st1, ended) p = tt

  advance_done : (st : StreamState c) → st.is_done ≡ true → (advance c st).0.is_done ≡ true
  advance_done st d = rw (advance-stopped c st d) (stopped_done st.recorded st d)

  drive_done : (n : ℕ) (st : StreamState c) → st.is_done ≡ true → (drive c n st).0.is_done ≡ true
  unfolding drive
  drive_done zero st d = d
  drive_done (suc n) st d = drive_done n (advance c st).0 (advance_done st d)

  drive-ends :
      (n : ℕ) (st : StreamState c) → length st.upstream < n → (drive c n st).0.is_done ≡ true
  unfolding drive
  drive-ends zero st h = absurd (omega arith)
  drive-ends (suc n) st h = elim (advance-IsProgress st) [
    | inl (d, settled) ↦ drive_done n (advance c st).0 d
    | inr e ↦ drive-ends n (advance c st).0 (omega arith)
  ]

-- A poll has an answer, whichever state it starts in: its loop stops after at most one iteration more
-- than there are reads left.
pub poll-IsSettled : (c : Codec) (st : StreamState c) → IsSettled (poll c st).1
unfolding poll
poll-IsSettled c st = poll_for-IsSettled c (suc (length st.upstream)) st (omega arith)

-- After more iterations than the upstream has reads the stream is recorded, and it has ended: no
-- iteration changes it or yields anything more.
pub drive-ended :
    (c : Codec) (n : ℕ) (upstream : List Read) (decoder : c.Decoder) (encoder : c.Encoder)
    (surface : WireFormat) (status : ℕ) (request_id : String)
    → length upstream < n
    → let st = (drive c n (opened c upstream decoder encoder surface status request_id)).0 in
      (st.recorded ≡ true) × (advance c st ≡ (st, ended))
unfolding opened
drive-ended c n upstream decoder encoder surface status request_id h =
    let start = opened c upstream decoder encoder surface status request_id in
    let over = drive-ends c n start h in
    elim (drive-IsAccounted c n 0 status start (inl (refl, refl, refl, refl, refl, refl))) [
      | inl (r, d, rest, e, b, s) ↦ ground (arith, over)
      | inr (f, r, d, same, is) ↦ (r, advance-over c _ d r)
    ]
