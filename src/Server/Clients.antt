-- ===== src/Server/Clients.antt =====
-- What a client of one node sees: its own writes, the other keys, and the errors.
use distributed_key_value_st.Prelude.{
  String, ◌≡◌, ◌≢◌, true, false, none, some, List, [], arith, eq_iff, eq_refl, ◌==◌,
}
use distributed_key_value_st.Prelude.Int.{ℤ}
use distributed_key_value_st.Prelude.Result.{Error, Result, ok, err}
use distributed_key_value_st.Hlc.{Timestamp}
use distributed_key_value_st.Store
use distributed_key_value_st.Store.{Store, Value}
use distributed_key_value_st.Proto.Kv.{PutRequest, PutResponse, DeleteRequest, DeleteResponse}
use distributed_key_value_st.Proto.Repl.{ReplicateRequest}
use distributed_key_value_st.Replication.{
  Peer, Reply, Options, Send, new_handler, on_write, eventual_on_write, causal_on_write,
}
use distributed_key_value_st.Server.{
  Node, put, delete, get, put_stamped, delete_stamped, snapshot_reads, put_value, delete_value,
}
use distributed_key_value_st.Hlc

module _ (call : Peer → ReplicateRequest → Reply) (now : ℤ) (n : Node) where
  -- A client that has put a value gets it from the node, with the timestamp of the put's response,
  -- in every mode.
  pub get-put_self :
      (req : PutRequest) {n' : Node} {sent : List Send} {resp : PutResponse}
      → put call now n req ≡ (n', sent, ok resp)
      → (get n' (record { key = req.key })).1
        ≡ record { value = req.value; timestamp = resp.timestamp; found = true }
  unfolding put get Store.get Store.put Store.assign
  get-put_self req h = ground (arith, eq_refl req.key)

  -- After a deletion that succeeded the node does not find the key, in every mode.
  pub get-delete_self :
      (req : DeleteRequest) {n' : Node} {sent : List Send} {resp : DeleteResponse}
      → delete call now n req ≡ (n', sent, ok resp)
      → (get n' (record { key = req.key })).1
        ≡ record { value = []; timestamp = none; found = false }
  unfolding delete get Store.get Store.delete Store.assign
  get-delete_self req h = ground (arith, eq_refl req.key)

  -- A put, whether it succeeds or fails, changes no other key's response.
  pub get-put_ne :
      (req : PutRequest) (key : String)
      → req.key ≢ key
      → (get (put call now n req).0 (record { key = key })).1 ≡ (get n (record { key = key })).1
  unfolding put get Store.get Store.put Store.assign
  get-put_ne req key ne = ground (arith, eq_iff req.key key)

  get-delete_ne :
      (req : DeleteRequest) (key : String)
      → req.key ≢ key
      → (get (delete call now n req).0 (record { key = key })).1 ≡ (get n (record { key = key })).1
  unfolding delete get Store.get Store.delete Store.assign
  get-delete_ne req key ne = ground (arith, eq_iff req.key key)

-- The node has the handler that `NewHandler` makes for its mode.
abbrev pub IsWired : Node → Type 0
IsWired n =
    (peers : List Peer) × (opts : Options) × (new_handler n.mode peers opts ≡ some n.handler)

-- Outside strong mode a handler reports no error.
on_write_ok :
    (call : Peer → ReplicateRequest → Reply) (n : Node) (key : String) (val : Value)
    → IsWired n
    → (n.mode == "strong") ≡ false
    → (on_write call n.handler key val).result ≡ ok tt
unfolding new_handler on_write eventual_on_write causal_on_write
on_write_ok call n key val (peers, opts, made) other = ground arith

module _ (call : Peer → ReplicateRequest → Reply) where
  put_stamped_err :
      (n : Node) (req : PutRequest) (stamp : Result Timestamp) {n' : Node} {sent : List Send}
      {e : Error}
      → IsWired n
      → put_stamped call n req stamp ≡ (n', sent, err e)
      → n'.store ≡ n.store
  unfolding put_stamped
  put_stamped_err n req (err e) wired h = cc
  put_stamped_err n req (ok ts) wired h =
      ground (arith, on_write_ok call n req.key (put_value req ts (snapshot_reads n).0) wired)

  delete_stamped_err :
      (n : Node) (req : DeleteRequest) (stamp : Result Timestamp) {n' : Node} {sent : List Send}
      {e : Error}
      → IsWired n
      → delete_stamped call n req stamp ≡ (n', sent, err e)
      → n'.store ≡ n.store
  unfolding delete_stamped
  delete_stamped_err n req (err e) wired h = cc
  delete_stamped_err n req (ok ts) wired h =
      ground (arith, on_write_ok call n req.key (delete_value ts (snapshot_reads n).0) wired)

  -- A put that fails leaves the node's own store as it was, in every mode, if the node's handler
  -- is that of its mode.
  pub put_err-store :
      (now : ℤ) (n : Node) (req : PutRequest) {n' : Node} {sent : List Send} {e : Error}
      → IsWired n
      → put call now n req ≡ (n', sent, err e)
      → n'.store ≡ n.store
  unfolding put
  put_err-store now n req wired h =
      put_stamped_err (record n { clock = (Hlc.send now n.clock).0 }) req (Hlc.send now n.clock).1
        wired h

  delete_err-store :
      (now : ℤ) (n : Node) (req : DeleteRequest) {n' : Node} {sent : List Send} {e : Error}
      → IsWired n
      → delete call now n req ≡ (n', sent, err e)
      → n'.store ≡ n.store
  unfolding delete
  delete_err-store now n req wired h =
      delete_stamped_err (record n { clock = (Hlc.send now n.clock).0 }) req
        (Hlc.send now n.clock).1 wired h
