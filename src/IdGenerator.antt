-- ===== src/IdGenerator.antt =====
-- idgenerator/idgenerator.go. The seeded source is `math/rand`, which every call advances under one
-- lock: its state is part of `W`, and what the code relies on is the documented range of its results.
use zipkin_go.Base.{ℕ, ◌+◌, ◌*◌, ◌%◌, ◌^◌, ◌<◌, ◌≡◌, not, arith, if◌then◌else◌}
use zipkin_go.Model.TraceIds.{TraceId, trace_id_empty, IsTraceId}
use zipkin_go.Model.SpanIds.{SpanId}

-- The interface `IDGenerator`.
pub record IdGenerator (W : Type 0) : Type 0 where
  pub span_id : TraceId → W → SpanId × W
  pub trace_id : W → TraceId × W

-- `Int63`, `Int31` and the Unix time in seconds.
pub record Source (W : Type 0) : Type 0 where
  pub int63 : W → ℕ × W
  pub int31 : W → ℕ × W
  pub unix : W → ℕ
  pub int63_bound : (w : W) → (int63 w).0 < 2 ^ 63
  pub int31_bound : (w : W) → (int31 w).0 < 2 ^ 31

module _ {W : Type 0} (source : Source W) where
  open source use {int63, int31, unix}

  unfoldable pub random_span_id_64 : TraceId → W → SpanId × W
  random_span_id_64 t w = if not (trace_id_empty t) then (t.low, w) else int63 w

  unfoldable pub random_span_id_128 : TraceId → W → SpanId × W
  random_span_id_128 t w = if not (trace_id_empty t) then (t.low, w) else int63 w

  unfoldable pub timestamped_span_id : TraceId → W → SpanId × W
  timestamped_span_id t w = if not (trace_id_empty t) then (t.low, w) else int63 w

  unfoldable pub random_trace_id_64 : W → TraceId × W
  random_trace_id_64 w = let (low, w') = int63 w in (record { high = 0; low = low }, w')

  -- The fields are computed in the order in which they are written.
  unfoldable pub random_trace_id_128 : W → TraceId × W
  random_trace_id_128 w =
      let (high, w1) = int63 w in
      let (low, w2) = int63 w1 in (record { high = high; low = low }, w2)

  unfoldable pub timestamped_trace_id : W → TraceId × W
  timestamped_trace_id w =
      let (r, w1) = int31 w in
      let (low, w2) = int63 w1 in
      (record { high = (unix w * 2 ^ 32 % 2 ^ 64 + r) % 2 ^ 64; low = low }, w2)

  abbrev pub new_random_64 : IdGenerator W
  new_random_64 = record { span_id = random_span_id_64; trace_id = random_trace_id_64 }

  abbrev pub new_random_128 : IdGenerator W
  new_random_128 = record { span_id = random_span_id_128; trace_id = random_trace_id_128 }

  abbrev pub new_random_timestamped : IdGenerator W
  new_random_timestamped = record { span_id = timestamped_span_id; trace_id = timestamped_trace_id }

  -- Each generator makes identifiers of 64-bit halves; the one for 64 bits leaves the high half 0.
  pub random_trace_ids-IsTraceId :
      (w : W)
      → IsTraceId (random_trace_id_64 w).0
        × ((random_trace_id_64 w).0.high ≡ 0)
        × IsTraceId (random_trace_id_128 w).0
        × IsTraceId (timestamped_trace_id w).0
  unfolding random_trace_id_64 random_trace_id_128 timestamped_trace_id
  random_trace_ids-IsTraceId w =
      let a = source.int63_bound w in
      let b = source.int63_bound (int63 w).1 in
      let c = source.int63_bound (int31 w).1 in omega arith

  -- Until the year 2106 a timestamped identifier made in a later second has a greater high half.
  pub timestamped_sorted :
      (v w : W)
      → unix w < 2 ^ 32
      → unix v < unix w
      → ((timestamped_trace_id v).0.high < (timestamped_trace_id w).0.high)
  unfolding timestamped_trace_id
  timestamped_sorted v w b h =
      let p = source.int31_bound v in let q = source.int31_bound w in omega arith
