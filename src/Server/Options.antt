-- ===== src/Server/Options.antt =====
-- packages/core/src/ipc/core-server.ts: the limits that the constructor of CoreServer accepts.
use agent_town.Prelude.{ℕ, ◌≤◌, String, ◌≡◌, leb, arith}
use agent_town.Result.{bind_ok, Result, ok, err, ◌>>=◌, ◌>>◌, guard, external}
use agent_town.Orchestrator.Payload.{◌⧺◌}
use agent_town.Server.Cache.{CacheLimits}

-- An option: left out, a natural number, or another number.
pub data Setting : Type 0 where
  absent unusual : Setting
  natural : ℕ → Setting

pub record LimitOptions : Type 0 where
  pub lease_sweep_interval_ms : Setting
  pub request_cache_size : Setting
  pub max_inbound_queued_bytes : Setting
  pub max_outbound_queued_bytes : Setting
  pub max_request_line_bytes : Setting
  pub request_cache_byte_limit : Setting

pub record ServerLimits : Type 0 where
  pub lease_sweep_interval_ms : ℕ
  pub max_inbound_queued_bytes : ℕ
  pub max_outbound_queued_bytes : ℕ
  pub max_request_line_bytes : ℕ
  pub cache_limits : CacheLimits

-- Number.isInteger(value), and at least a bound, where value is the option or its default.
unfoldable pub at_least : ℕ → ℕ → Setting → String → Result ℕ
at_least least default absent text = guard (leb least default) (external text) >> ok default
at_least least default (natural n) text = guard (leb least n) (external text) >> ok n
at_least least default unusual text = err (external text)

abbrev positive : String → String
positive name = name ⧺ " must be a positive integer"

-- The constructor of CoreServer
unfoldable pub check_limits : LimitOptions → Result ServerLimits
check_limits o = do
  sweep ← at_least 1 1000 o.lease_sweep_interval_ms (positive "leaseSweepIntervalMs")
  size ← at_least 1 1024 o.request_cache_size (positive "requestCacheSize")
  inbound ← at_least 1 1048576 o.max_inbound_queued_bytes (positive "maxInboundQueuedBytes")
  line ← at_least 1 1048576 o.max_request_line_bytes (positive "maxRequestLineBytes")
  cache_bytes ← at_least 1 4194304 o.request_cache_byte_limit (positive "requestCacheByteLimit")
  outbound ←
      at_least 512 1048576 o.max_outbound_queued_bytes
        "maxOutboundQueuedBytes must be an integer of at least 512"
  let limits : CacheLimits = record {
    request_cache_size = size;
    request_cache_byte_limit = cache_bytes;
  }
  ok (record {
    lease_sweep_interval_ms = sweep;
    max_inbound_queued_bytes = inbound;
    max_outbound_queued_bytes = outbound;
    max_request_line_bytes = line;
    cache_limits = limits;
  })

at_least-le :
    (least default : ℕ) (v : Setting) (text : String) (n : ℕ)
    → at_least least default v text ≡ ok n
    → least ≤ n
unfolding at_least guard
at_least-le least default absent text n h = ground (arith, h)
at_least-le least default (natural m) text n h = ground (arith, h)
at_least-le least default unusual text n h = ground (arith, h)

-- No limit is zero, and a message of 512 bytes fits.
pub record IsUsable (l : ServerLimits) : Type 0 where
  pub sweeps : 1 ≤ l.lease_sweep_interval_ms
  pub keeps : 1 ≤ l.cache_limits.request_cache_size
  pub caches : 1 ≤ l.cache_limits.request_cache_byte_limit
  pub reads : 1 ≤ l.max_inbound_queued_bytes
  pub takes_lines : 1 ≤ l.max_request_line_bytes
  pub writes : 512 ≤ l.max_outbound_queued_bytes

-- A server is constructed only with limits that it can work with: none of them is zero, and a
-- message of 512 bytes may be sent.
pub check_limits-IsUsable :
    (o : LimitOptions) (l : ServerLimits) → check_limits o ≡ ok l → IsUsable l
unfolding check_limits
check_limits-IsUsable o l h =
    let (a, ea, h1) = bind_ok _ _ l h in
    let (b, eb, h2) = bind_ok _ _ l h1 in
    let (c, ec, h3) = bind_ok _ _ l h2 in
    let (d, ed, h4) = bind_ok _ _ l h3 in
    let (e, ee, h5) = bind_ok _ _ l h4 in
    let (f, ef, h6) = bind_ok _ _ l h5 in
    let a' = at_least-le 1 1000 o.lease_sweep_interval_ms _ a ea in
    let b' = at_least-le 1 1024 o.request_cache_size _ b eb in
    let c' = at_least-le 1 1048576 o.max_inbound_queued_bytes _ c ec in
    let d' = at_least-le 1 1048576 o.max_request_line_bytes _ d ed in
    let e' = at_least-le 1 4194304 o.request_cache_byte_limit _ e ee in
    let f' = at_least-le 512 1048576 o.max_outbound_queued_bytes _ f ef in
    record {
      sweeps = ground (arith, h6, a');
      keeps = ground (arith, h6, b');
      caches = ground (arith, h6, e');
      reads = ground (arith, h6, c');
      takes_lines = ground (arith, h6, d');
      writes = ground (arith, h6, f');
    }
