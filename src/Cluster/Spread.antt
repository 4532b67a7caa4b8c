-- ===== src/Cluster/Spread.antt =====
-- What holds of a cluster in any mode: every node keeps to its mode's invariant, all that nodes took is
-- in the history, and what a node made is on its way to each of its peers.
use mathlib.Core.List.Memᴰ
use distributed_key_value_st.Prelude.{
  ◌≡◌, inl, inr, sym, subst, ◌∙◌, List, [], ◌∷◌, ◌++◌, Memᴰ, Bool-cases, eq_iff, eq_refl, ◌==◌,
}
use distributed_key_value_st.Store.Converge.{Write}
use distributed_key_value_st.Replication.{Peer, Send}
use distributed_key_value_st.Server.{Node}
use distributed_key_value_st.Cluster.{Cluster, update, sent_write, after_call, after_delivery}
use distributed_key_value_st.Cluster.Carried.{IsSent}

-- A property of every node, after one of them has changed.
pub update-Each {ℓ} :
    {A : Type 0} (P : Peer → A → Type ℓ) (f : Peer → A) (p : Peer) (a : A)
    → P p a
    → ((q : Peer) → P q (f q))
    → (q : Peer) → P q (update f p a q)
update-Each P f p a h old q = elim (Bool-cases (p == q)) [
  | inl same ↦ subst (λ r. P r (update f p a r)) ((eq_iff p q).0 same) (rw (eq_refl p) h)
  | inr other ↦ rw other (old q)
]

-- ... and one of every node and its log.
pub update-All {ℓ} :
    {A B : Type 0} (P : Peer → A → B → Type ℓ) (f : Peer → A) (g : Peer → B) (p : Peer) (a : A)
    (b : B)
    → P p a b
    → ((q : Peer) → P q (f q) (g q))
    → (q : Peer) → P q (update f p a q) (update g p b q)
update-All P f g p a b h old q = elim (Bool-cases (p == q)) [
  | inl same ↦
      subst (λ r. P r (update f p a r) (update g p b r)) ((eq_iff p q).0 same) (rw (eq_refl p) h)
  | inr other ↦ rw other (old q)
]

mem-update :
    (log : Peer → List Write) (p : Peer) (ws : List Write) (q : Peer) (w : Write)
    → Memᴰ w (log q)
    → Memᴰ w (update log p (ws ++ log p) q)
mem-update log p ws =
    update-Each (λ q l. (w : Write) → Memᴰ w (log q) → Memᴰ w l) log p (ws ++ log p)
      (λ w m. Memᴰ.append_right ws m) (λ q w m. m)

-- `P` is what the mode keeps of a node and its log.
module _ (P : Peer → Node → List Write → Type 0) (others : Peer → List Peer) where
  pub record IsSpread (c : Cluster) : Type 0 where
    pub each : (p : Peer) → P p (c.node p) (c.log p)
    pub logged : (p : Peer) (w : Write) → Memᴰ w (c.log p) → Memᴰ w c.history
    pub taken_logged : (p : Peer) (w : Write) → Memᴰ w (c.taken p) → Memᴰ w (c.log p)
    pub sent_made : (s : Send) → Memᴰ s c.sent → Memᴰ (sent_write s) c.history
    pub spread :
        (w : Write)
        → Memᴰ w c.history
        → (p : Peer) × Memᴰ w (c.log p) × ((q : Peer) → Memᴰ q (others p) → IsSent c.sent w q)

  module _ (c : Cluster) (v : IsSpread c) (p : Peer) (n : Node) where
    -- A node took something, or nothing, that is in the history.
    pub delivery-IsSpread :
        (ws : List Write)
        → P p n (ws ++ c.log p)
        → ((w : Write) → Memᴰ w ws → Memᴰ w c.history)
        → IsSpread (after_delivery c p n ws)
    delivery-IsSpread ws h known = record {
      each = update-All P c.node c.log p n (ws ++ c.log p) h v.each;
      logged =
          update-Each (λ q l. (w : Write) → Memᴰ w l → Memᴰ w c.history) c.log p (ws ++ c.log p)
            (λ w m. elim (Memᴰ.append_cases ws m) [
              | inl new ↦ known w new
              | inr old ↦ v.logged p w old
            ])
            v.logged;
      taken_logged =
          update-All (λ q l k. (w : Write) → Memᴰ w l → Memᴰ w k) c.taken c.log p (ws ++ c.taken p)
            (ws ++ c.log p)
            (λ w m. elim (Memᴰ.append_cases ws m) [
              | inl new ↦ Memᴰ.append_left _ new
              | inr old ↦ Memᴰ.append_right ws (v.taken_logged p w old)
            ])
            v.taken_logged;
      sent_made = v.sent_made;
      spread =
          λ w m. let (q, at, on_way) = v.spread w m in (q, mem-update c.log p ws q w at, on_way);
    }

    -- A call at a node made no write.
    pub unmade-IsSpread : P p n (c.log p) → IsSpread (after_call c p n [] [])
    unmade-IsSpread h = record {
      each = update-All P c.node c.log p n (c.log p) h v.each;
      logged =
          update-Each (λ q l. (w : Write) → Memᴰ w l → Memᴰ w c.history) c.log p (c.log p)
            (v.logged p) v.logged;
      taken_logged = λ q w m. mem-update c.log p [] q w (v.taken_logged q w m);
      sent_made = v.sent_made;
      spread =
          λ w m. let (q, at, on_way) = v.spread w m in (q, mem-update c.log p [] q w at, on_way);
    }

    -- A call at a node made a write, which is on its way to every peer.
    pub call-IsSpread :
        (sends : List Send) (w : Write)
        → P p n (w ∷ c.log p)
        → ((s : Send) → Memᴰ s sends → sent_write s ≡ w)
        → ((q : Peer) → Memᴰ q (others p) → IsSent sends w q)
        → IsSpread (after_call c p n sends (w ∷ []))
    call-IsSpread sends w h carries to_all = record {
      each = update-All P c.node c.log p n (w ∷ c.log p) h v.each;
      logged =
          update-Each (λ q l. (u : Write) → Memᴰ u l → Memᴰ u (w ∷ c.history)) c.log p (w ∷ c.log p)
            (λ u m. elim m [ Memᴰ.head e ↦ Memᴰ.head e | Memᴰ.tail t ↦ Memᴰ.tail (v.logged p u t) ])
            (λ q u m. Memᴰ.tail (v.logged q u m));
      taken_logged = λ q u m. mem-update c.log p (w ∷ []) q u (v.taken_logged q u m);
      sent_made = λ s m. elim (Memᴰ.append_cases sends m) [
        | inl new ↦ Memᴰ.head (carries s new)
        | inr old ↦ Memᴰ.tail (v.sent_made s old)
      ];
      spread = λ u m. elim m [
        | Memᴰ.head e ↦ (
          p,
          rw (eq_refl p) (Memᴰ.head e),
          λ q at.
              let (s, there, to, this) = to_all q at in
              (s, Memᴰ.append_left _ there, to, this ∙ sym e),
        )
        | Memᴰ.tail t ↦
            let (q, at, on_way) = v.spread u t in
            (
              q,
              mem-update c.log p (w ∷ []) q u at,
              λ r m.
                  let (s, there, to, this) = on_way r m in
                  (s, Memᴰ.append_right sends there, to, this),
            )
      ];
    }
