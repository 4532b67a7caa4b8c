-- ===== src/Server/Race/Served.antt =====
-- Replication calls outside causal mode, one after the other: what they leave under a key that is held.
use distributed_key_value_st.Prelude.{
  String, ◌≡◌, refl, ap, subst, false, Option, none, some, List, [], ◌∷◌, ◌==◌,
}
use distributed_key_value_st.Prelude.Int.{ℤ}
use distributed_key_value_st.Prelude.Result.{Result, ok, err}
use distributed_key_value_st.Hlc
use distributed_key_value_st.Hlc.{Timestamp, Clock}
use distributed_key_value_st.Store
use distributed_key_value_st.Store.{Store, Value, Dependency}
use distributed_key_value_st.Store.Merge.{Covers, Covers-apply_self}
use distributed_key_value_st.Store.Converge.{Covers-apply}
use distributed_key_value_st.Buffer.Causal.{effective, timestamp-effective}
use distributed_key_value_st.Proto.Repl
use distributed_key_value_st.Proto.Repl.{ReplicateRequest}
use distributed_key_value_st.Replication.{build_replicate_request}
use distributed_key_value_st.Wire.{from_proto_ts, replicated_value}
use distributed_key_value_st.Server.{Node, replicate}
use distributed_key_value_st.Server.Direct.{replicate_taken, replicate_refused, replicate_unstamped}
use distributed_key_value_st.Server.Replica.{arrived, replicate_direct, replicate_stale}
use distributed_key_value_st.Server.Race.{Call}
use distributed_key_value_st.Server.Race.Calls.{serve}

-- The node is outside causal mode and has a version of the key at `ts` or a later one.
record Keeps (key : String) (ts : Timestamp) (n : Node) : Type 0 where
  direct : (n.mode == "causal") ≡ false
  covers : Covers (n.store.entries key) ts

module _ (key : String) (ts : Timestamp) where
  received-Keeps :
      (n : Node) (now : ℤ) (req : ReplicateRequest) (pts : Repl.HlcTimestamp)
      (r : Clock × Result Timestamp)
      → req.timestamp ≡ some pts
      → Hlc.receive now (from_proto_ts pts) n.clock ≡ r
      → Keeps key ts n
      → Keeps key ts (replicate now n req).0
  received-Keeps n now req pts (clk, ok stamp) e h kept =
      rw (replicate_taken n kept.direct now req pts clk e stamp h) (record {
        direct = kept.direct;
        covers =
            Covers-apply n.store req.key key (effective (replicated_value req (from_proto_ts pts)))
              ts kept.covers;
      })
  received-Keeps n now req pts (clk, err x) e h kept =
      rw (replicate_refused n kept.direct now req pts clk e x h) kept

  replicate-Keeps :
      (n : Node) (now : ℤ) (req : ReplicateRequest) (t : Option Repl.HlcTimestamp)
      → req.timestamp ≡ t
      → Keeps key ts n
      → Keeps key ts (replicate now n req).0
  replicate-Keeps n now req none e kept = rw (replicate_unstamped now n req e) kept
  replicate-Keeps n now req (some pts) e kept =
      received-Keeps n now req pts (Hlc.receive now (from_proto_ts pts) n.clock) e refl kept

  serve-Keeps : (n : Node) (calls : List Call) → Keeps key ts n → Keeps key ts (serve n calls)
  unfolding serve
  serve-Keeps n [] kept = kept
  serve-Keeps n ((now, req) ∷ calls) kept =
      serve-Keeps (replicate now n req).0 calls (replicate-Keeps n now req req.timestamp refl kept)

  -- Replication calls leave a version that is held, or a later one.
  pub serve-Covers :
      (n : Node) (calls : List Call)
      → (n.mode == "causal") ≡ false
      → Covers (n.store.entries key) ts
      → Covers ((serve n calls).store.entries key) ts
  serve-Covers n calls direct h =
      (serve-Keeps n calls (record { direct = direct; covers = h })).covers

module _ (n : Node) (direct : (n.mode == "causal") ≡ false) (now : ℤ) (req : ReplicateRequest) where
  mode-received :
      (pts : Repl.HlcTimestamp) (r : Clock × Result Timestamp)
      → req.timestamp ≡ some pts
      → Hlc.receive now (from_proto_ts pts) n.clock ≡ r
      → (replicate now n req).0.mode ≡ n.mode
  mode-received pts (clk, ok stamp) e h =
      ap (λ (m : Node). m.mode) (replicate_taken n direct now req pts clk e stamp h)
  mode-received pts (clk, err x) e h =
      ap (λ (m : Node). m.mode) (replicate_refused n direct now req pts clk e x h)

  mode_kept :
      (t : Option Repl.HlcTimestamp) → req.timestamp ≡ t → (replicate now n req).0.mode ≡ n.mode
  mode_kept none e = ap (λ (m : Node). m.mode) (replicate_unstamped now n req e)
  mode_kept (some pts) e = mode-received pts (Hlc.receive now (from_proto_ts pts) n.clock) e refl

  pub mode-replicate : (replicate now n req).0.mode ≡ n.mode
  mode-replicate = mode_kept req.timestamp refl

-- Outside causal mode, once the clock has accepted a request, it changes nothing in the store when
-- it arrives again, whatever replication calls for whatever keys have been served in between.
pub replicate_again :
    (now later : ℤ) (m : Node) (key : String) (val : Value) (deps : List Dependency)
    (calls : List Call) {clk : Clock} {stamp : Timestamp}
    → (m.mode == "causal") ≡ false
    → Hlc.receive now val.timestamp m.clock ≡ (clk, ok stamp)
    → let n = serve (replicate now m (build_replicate_request key val deps)).0 calls in
      (replicate later n (build_replicate_request key val deps)).0.store ≡ n.store
replicate_again now later m key val deps calls {clk} direct h =
    let first = (replicate now m (build_replicate_request key val deps)).0 in
    let taken : Keeps key val.timestamp first =
      rw (replicate_direct m direct now key val deps h) (record {
        direct = direct;
        covers =
            subst (Covers ((Store.apply m.store key (effective (arrived val deps))).0.entries key))
              (timestamp-effective (arrived val deps))
              (Covers-apply_self m.store key (effective (arrived val deps)));
      }) in
    let kept = serve-Keeps key val.timestamp first calls taken in
    replicate_stale key val deps later (serve first calls) kept.direct kept.covers
