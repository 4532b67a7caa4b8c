-- ===== src/Replication/Quorum.antt =====
-- Two strong writes, at whatever nodes: their quorums meet.
use distributed_key_value_st.Prelude.{
  ℕ, ◌+◌, ◌*◌, ◌≤◌, ◌<◌, ◌&&◌, String, ◌≡◌, refl, inl, inr, Bool, true, ◌||◌, some, List, [], ◌∷◌,
  arith, length, Memᴰ, ◌==◌, if◌then◌else◌, eq_refl, Bool-cases,
}
use distributed_key_value_st.Prelude.Result.{ok}
use distributed_key_value_st.Store.{Value}
use distributed_key_value_st.Proto.Repl.{ReplicateRequest}
use distributed_key_value_st.Replication.{
  Peer, Reply, Options, Handler, is_ack, build_replicate_request, count_acks, on_write, new_handler,
}
use distributed_key_value_st.Replication.Outcomes.{handled_iff}

abbrev pub count : (Peer → Bool) → List Peer → ℕ
count f [] = 0
count f (x ∷ xs) = (if f x then 1 else 0) + count f xs

-- The two lists name the same nodes, as often.
abbrev pub Rearranges : List Peer → List Peer → Type 0
Rearranges xs ys = (f : Peer → Bool) → count f xs ≡ count f ys

count-true : (xs : List Peer) → count (λ x. true) xs ≡ length xs
count-true [] = refl
count-true (x ∷ xs) = omega (arith, count-true xs)

pub count-le :
    (f g : Peer → Bool) (xs : List Peer)
    → ((x : Peer) → f x ≡ true → g x ≡ true)
    → count f xs ≤ count g xs
count-le f g [] h = omega arith
count-le f g (x ∷ xs) h = ground (arith, count-le f g xs h, h x)

-- If `f` and `g` together count more than there are elements, some element has both.
overlap :
    (f g : Peer → Bool) (xs : List Peer)
    → length xs < count f xs + count g xs
    → (x : Peer) × Memᴰ x xs × (f x ≡ true) × (g x ≡ true)
overlap f g [] h = absurd (omega arith)
overlap f g (x ∷ xs) h = elim (Bool-cases (f x && g x)) [
  | inl both ↦ (x, Memᴰ.head refl, ground arith, ground arith)
  | inr some_not ↦ let (y, at, p, q) = overlap f g xs (ground arith) in (y, Memᴰ.tail at, p, q)
]

count_acks-eq-count :
    (call : Peer → ReplicateRequest → Reply) (req : ReplicateRequest) (peers : List Peer)
    → count_acks call req peers ≡ count (λ p. is_ack (call p req)) peers
unfolding count_acks
count_acks-eq-count call req [] = refl
count_acks-eq-count call req (p ∷ peers) = ground (arith, count_acks-eq-count call req peers)

-- The nodes that have the write `val` of `key` by node `self`: the writer, and who acknowledged.
abbrev pub holds : Peer → (Peer → ReplicateRequest → Reply) → String → Value → Peer → Bool
holds self call key val x = (x == self) || is_ack (call x (build_replicate_request key val []))

module _ (self : Peer) (peers : List Peer) (call : Peer → ReplicateRequest → Reply) (key : String)
    (val : Value) where
  holders :
      count_acks call (build_replicate_request key val []) peers + 1
      ≤ count (holds self call key val) (self ∷ peers)
  holders = ground (
    arith,
    eq_refl self,
    count_acks-eq-count call (build_replicate_request key val []) peers,
    count-le (λ p. is_ack (call p (build_replicate_request key val []))) (holds self call key val)
        peers (λ x h. ground arith),
  )

-- The writer and the peers of a strong write that succeeded are more than half of the nodes.
pub majority_holds :
    (nodes : List Peer) (self : Peer) (peers : List Peer) (opts : Options)
    (call : Peer → ReplicateRequest → Reply) (key : String) (val : Value) {h : Handler}
    → Rearranges (self ∷ peers) nodes
    → new_handler "strong" peers opts ≡ some h
    → (on_write call h key val).result ≡ ok tt
    → length nodes < 2 * count (holds self call key val) nodes
majority_holds nodes self peers opts call key val all made good = omega (
  arith,
  (handled_iff call opts key val peers made).0 good,
  holders self peers call key val,
  all (holds self call key val),
  all (λ x. true),
  count-true nodes,
  count-true (self ∷ peers),
)

-- If two strong writes of a cluster succeed, at any two nodes whose handlers have all the other
-- nodes as peers, then some node has both: it made the write or acknowledged it.
pub quorums_intersect :
    (nodes : List Peer) (a b : Peer) (peers_a peers_b : List Peer) (opts_a opts_b : Options)
    (call_a call_b : Peer → ReplicateRequest → Reply) (key_a key_b : String) (val_a val_b : Value)
    {h_a h_b : Handler}
    → Rearranges (a ∷ peers_a) nodes
    → Rearranges (b ∷ peers_b) nodes
    → new_handler "strong" peers_a opts_a ≡ some h_a
    → new_handler "strong" peers_b opts_b ≡ some h_b
    → (on_write call_a h_a key_a val_a).result ≡ ok tt
    → (on_write call_b h_b key_b val_b).result ≡ ok tt
    → (x : Peer) × Memᴰ x nodes
      × (holds a call_a key_a val_a x ≡ true)
      × (holds b call_b key_b val_b x ≡ true)
quorums_intersect nodes a b peers_a peers_b opts_a opts_b call_a call_b key_a key_b val_a val_b
      all_a all_b made_a made_b good_a good_b =
    overlap (holds a call_a key_a val_a) (holds b call_b key_b val_b) nodes (
      omega (
        arith,
        majority_holds nodes a peers_a opts_a call_a key_a val_a all_a made_a good_a,
        majority_holds nodes b peers_b opts_b call_b key_b val_b all_b made_b good_b,
      ))
