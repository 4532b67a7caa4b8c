-- ===== src/Process/Serve.antt =====
-- cmd/node/main.go: the life of a node's process, from its flags to its exit. What gRPC, the network and the
-- operating system do are the events that the process sees; whether it may listen is an argument.
use distributed_key_value_st.Prelude.{
  ℕ, String, ◌≡◌, ◌⊎◌, inl, inr, refl, subst, sym, ap, ◌∙◌, true, Bool, Option, none, some,
  some_inv, List, [], ◌∷◌, Memᴰ, if◌then◌else◌,
}
use distributed_key_value_st.Prelude.Int.{ℤ, pos, ◌≤ℤ◌}
use distributed_key_value_st.Proto.Kv.{PutRequest, DeleteRequest, GetRequest}
use distributed_key_value_st.Proto.Repl.{ReplicateRequest}
use distributed_key_value_st.Buffer.{deps_satisfied}
use distributed_key_value_st.Replication.{Peer, Reply, Options}
use distributed_key_value_st.Store.{Value}
use distributed_key_value_st.Server
use distributed_key_value_st.Server.{Node}
use distributed_key_value_st.Server.Invariant.{IsCausalNode}
use distributed_key_value_st.Server.Receipts.{IsTimely}
use distributed_key_value_st.Server.Steps
use distributed_key_value_st.Server.Steps.{Reach, Reach-IsCausalNode}
use distributed_key_value_st.Process.{start, contains, valid_modes, dial_peers, parse_peers}
use distributed_key_value_st.Process.Start.{IsMode, start_lem, start-IsCausalNode}

-- What happens to a process that listens: an RPC, the failure of `Serve`, or SIGINT or SIGTERM.
pub data Event : Type 0 where
  putting : (Peer → ReplicateRequest → Reply) → ℤ → PutRequest → Event
  deleting : (Peer → ReplicateRequest → Reply) → ℤ → DeleteRequest → Event
  getting : GetRequest → Event
  replicating : ℤ → ReplicateRequest → Event
  serve_failed : Event
  signalled : Event

-- A process: its node, its exit status if it has exited, and the connections that it has closed.
pub record Life : Type 0 where
  pub node : Option Node
  pub status : Option ℕ
  pub closed : List Peer

-- `log.Fatalf` exits with 1, and skips the deferred `closeConns`.
abbrev pub fatal : Option Node → Life
fatal n = record { node = n; status = some 1; closed = [] }

-- The connections that `closeConns` closes, in its order.
close_conns : List Peer → List Peer
close_conns [] = []
close_conns (conn ∷ conns) = conn ∷ close_conns conns

-- The end of `main` at a signal: the server stops, and the deferred `closeConns` runs.
shut_down : List Peer → Node → Life
unfolding close_conns
shut_down conns n = record { node = some n; status = some 0; closed = close_conns conns }

-- The server, once it is registered and serves.
unfoldable pub serve_events : List Peer → Node → List Event → Life
unfolding shut_down
serve_events conns n [] = record { node = some n; status = none; closed = [] }
serve_events conns n (putting call now req ∷ events) =
    serve_events conns (Server.put call now n req).0 events
serve_events conns n (deleting call now req ∷ events) =
    serve_events conns (Server.delete call now n req).0 events
serve_events conns n (getting req ∷ events) = serve_events conns (Server.get n req).0 events
serve_events conns n (replicating now req ∷ events) =
    serve_events conns (Server.replicate now n req).0 events
serve_events conns n (serve_failed ∷ events) = fatal (some n)
serve_events conns n (signalled ∷ events) = shut_down conns n

-- The connections that `dialPeers` opens.
abbrev pub connections :
    (String → List String) → (String → String) → (String → Bool) → String → List Peer
connections split trim dial peers = dial_peers dial (parse_peers split trim peers)

-- `main`. A panic of `NewHandler` would exit with 2.
unfoldable pub node_process :
    (String → List String)
    → (String → String)
    → (String → Bool)
    → Bool
    → ℤ
    → String
    → String
    → Options
    → List Event
    → Life
node_process split trim dial listens now mode peers opts events =
    elim (start split trim dial now mode peers opts) [
      | none ↦ record {
        node = none;
        status = some (if contains valid_modes mode then 2 else 1);
        closed = [];
      }
      | some n ↦
          if listens
          then serve_events (connections split trim dial peers) n events
          else fatal (some n)
    ]

-- How a life ends: it goes on, or a signal has ended it and the connections are closed, or `Serve` has
-- failed.
abbrev pub IsLife : List Peer → List Event → Life → Type 0
IsLife conns events life =
    ((life.status ≡ none) × (life.closed ≡ []))
    ⊎ ((life.status ≡ some 0) × (life.closed ≡ conns) × Memᴰ signalled events)
    ⊎ ((life.status ≡ some 1) × (life.closed ≡ []) × Memᴰ serve_failed events)

close_conns_lem : (conns : List Peer) → close_conns conns ≡ conns
unfolding close_conns
close_conns_lem [] = refl
close_conns_lem (conn ∷ conns) = ap (◌∷◌ conn) (close_conns_lem conns)

module _ (conns : List Peer) where
  IsLife-later :
      (n : Node) (e : Event) (events : List Event)
      → IsLife conns events (serve_events conns n events)
      → IsLife conns (e ∷ events) (serve_events conns n events)
  IsLife-later n e events (inl running) = inl running
  IsLife-later n e events (inr (inl (s, c, m))) = inr (inl (s, c, Memᴰ.tail m))
  IsLife-later n e events (inr (inr (s, c, m))) = inr (inr (s, c, Memᴰ.tail m))

  serve_events-IsLife :
      (n : Node) (events : List Event) → IsLife conns events (serve_events conns n events)
  unfolding serve_events
  serve_events-IsLife n [] = inl (refl, refl)
  serve_events-IsLife n (putting call now req ∷ events) =
      let m = (Server.put call now n req).0 in
      IsLife-later m (putting call now req) events (serve_events-IsLife m events)
  serve_events-IsLife n (deleting call now req ∷ events) =
      let m = (Server.delete call now n req).0 in
      IsLife-later m (deleting call now req) events (serve_events-IsLife m events)
  serve_events-IsLife n (getting req ∷ events) =
      let m = (Server.get n req).0 in
      IsLife-later m (getting req) events (serve_events-IsLife m events)
  serve_events-IsLife n (replicating now req ∷ events) =
      let m = (Server.replicate now n req).0 in
      IsLife-later m (replicating now req) events (serve_events-IsLife m events)
  serve_events-IsLife n (serve_failed ∷ events) = inr (inr (refl, refl, Memᴰ.head refl))
  serve_events-IsLife n (signalled ∷ events) =
      inr (inl (refl, close_conns_lem conns, Memᴰ.head refl))

-- Every replicated write that the process serves is timely.
pub IsTimelyRun : Node → List Event → Type 0
IsTimelyRun n [] = Unit {0}
IsTimelyRun n (putting call now req ∷ events) = IsTimelyRun (Server.put call now n req).0 events
IsTimelyRun n (deleting call now req ∷ events) = IsTimelyRun (Server.delete call now n req).0 events
IsTimelyRun n (getting req ∷ events) = IsTimelyRun (Server.get n req).0 events
IsTimelyRun n (replicating now req ∷ events) =
    IsTimely now n req.timestamp × IsTimelyRun (Server.replicate now n req).0 events
IsTimelyRun n (serve_failed ∷ events) = Unit {0}
IsTimelyRun n (signalled ∷ events) = Unit {0}

-- The node at the end is the one at the start after some calls.
serve_events-Reach :
    (conns : List Peer) (n : Node) (events : List Event) {m : Node}
    → Reach m n
    → IsTimelyRun n events
    → (k : Node) × ((serve_events conns n events).node ≡ some k) × Reach m k
unfolding serve_events IsTimelyRun
serve_events-Reach conns n [] r timely = (n, refl, r)
serve_events-Reach conns n (putting call now req ∷ events) r timely =
    serve_events-Reach conns (Server.put call now n req).0 events
      (Steps.next r (Steps.putting call now req)) timely
serve_events-Reach conns n (deleting call now req ∷ events) r timely =
    serve_events-Reach conns (Server.delete call now n req).0 events
      (Steps.next r (Steps.deleting call now req)) timely
serve_events-Reach conns n (getting req ∷ events) r timely =
    serve_events-Reach conns (Server.get n req).0 events (Steps.next r (Steps.getting req)) timely
serve_events-Reach conns n (replicating now req ∷ events) r timely =
    serve_events-Reach conns (Server.replicate now n req).0 events
      (Steps.next r (Steps.replicating now req timely.0)) timely.1
serve_events-Reach conns n (serve_failed ∷ events) r timely = (n, refl, r)
serve_events-Reach conns n (signalled ∷ events) r timely = (n, refl, r)

module _ (split : String → List String) (trim : String → String) (dial : String → Bool) (now : ℤ)
    (peers : String) (opts : Options) (events : List Event) where
  abbrev life : String → Life
  life mode = node_process split trim dial true now mode peers opts events

  served :
      (mode : String) {n : Node}
      → start split trim dial now mode peers opts ≡ some n
      → life mode ≡ serve_events (connections split trim dial peers) n events
  unfolding node_process
  served mode h = rw (h, node_process) refl

  -- A process that is given one of the three modes and may listen exits with 0 only at a signal, with
  -- every connection to a peer that it has opened closed, and with 1 only when `Serve` fails; else it
  -- goes on. It never panics.
  pub node_process_lem :
      (mode : String) → IsMode mode → IsLife (connections split trim dial peers) events (life mode)
  node_process_lem mode v =
      let (n, begun, same, wired) = start_lem split trim dial now peers opts mode v in
      subst (IsLife (connections split trim dial peers) events) (sym (served mode begun))
        (serve_events-IsLife (connections split trim dial peers) n events)

  -- A process in causal mode that may listen, with a clock not before time zero at the start, holds a
  -- value only with what the value depends on, whatever it serves before it exits or goes on, if the
  -- replicated writes are timely.
  pub node_process_dependencies :
      {m n : Node} (key : String) (val : Value)
      → pos 0 ≤ℤ now
      → start split trim dial now "causal" peers opts ≡ some m
      → IsTimelyRun m events
      → (life "causal").node ≡ some n
      → n.store.entries key ≡ some val
      → deps_satisfied n.store val.deps ≡ true
  node_process_dependencies {m} {n} key val begun started timely ended found =
      let (k, last, run) =
        serve_events-Reach (connections split trim dial peers) m events Steps.here timely in
      let same : k ≡ n =
        some_inv (sym last ∙ sym (ap (λ (l : Life). l.node) (served "causal" started)) ∙ ended) in
      let valid =
        Reach-IsCausalNode (start-IsCausalNode split trim dial now peers opts begun started) run in
      (subst IsCausalNode same valid).causal.closed key val found
