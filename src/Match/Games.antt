-- ===== src/Match/Games.antt =====
-- Whole exchanges of `process_matching_with_friends`: a request and its answer.
use jbjb.Base.{ℕ, ◌≡◌, sym, ap, ◌∙◌, ◌≢◌, some, arith, ok, ◌>>=◌}
use jbjb.Base.Texts.{Text, find}
use jbjb.Match.Handshake.{Relayed, relay-Relayed}
use jbjb.Match.Pairing.{HasFreshKey}
use jbjb.Match.{relay}
use jbjb.Protocol.Messages.{apply, accept, deny}
use jbjb.Protocol.Status.{login, match_apply, match_recver, match_complete}
use jbjb.World.{Session, External, World}

module _ {S D : Type 0} (x : External S D) (attempts : ℕ) where
  -- Two different players in the lobby, under their names.
  pub record AreInLobby (i j : ℕ) (name_i name_j : Text) (w : World S D) : Type 0 where
    pub differ : i ≢ j
    pub named_i : find name_i w.user_id_map ≡ some i
    pub named_j : find name_j w.user_id_map ≡ some j
    pub stat_i : (w.sessions i).stat ≡ login
    pub stat_j : (w.sessions j).stat ≡ login

  same_keys :
      (w w' : World S D)
      → (w'.redis ≡ w.redis) × (w'.drawn ≡ w.drawn)
      → HasFreshKey x attempts w
      → HasFreshKey x attempts w'
  same_keys w w' e (n, below, free) = (n, below, rw (e.0, e.1) free)

  -- A request from `i` to `j`, in the lobby.
  apply_lem :
      (i j : ℕ) (name_i name_j : Text) (w : World S D)
      → AreInLobby i j name_i name_j w
      → HasFreshKey x attempts w
      → (w' : World S D) × (relay x attempts apply i name_j w ≡ ok w')
        × Relayed x apply i j w w'
        × HasFreshKey x attempts w'
  apply_lem i j name_i name_j w h fresh =
      let (w', e, r) = relay-Relayed x attempts apply i j name_j w h.differ h.named_j fresh in
      (w', e, r, same_keys w w' (r.room (λ p. cc)) fresh)

  -- If one of the next room keys is not in Redis: a player who asks another one in the lobby, and
  -- is accepted, ends with that one in a match.
  apply-accept :
      (i j : ℕ) (name_i name_j : Text) (w : World S D)
      → AreInLobby i j name_i name_j w
      → HasFreshKey x attempts w
      → (w' : World S D) × ((relay x attempts apply i name_j w >>= relay x attempts accept j name_i)
          ≡ ok w')
        × ((w'.sessions i).stat ≡ match_complete)
        × ((w'.sessions j).stat ≡ match_complete)
  apply-accept i j name_i name_j w h fresh =
      let (w₁, e₁, r₁, fresh₁) = apply_lem i j name_i name_j w h fresh in
      let (w₂, e₂, r₂) =
        relay-Relayed x attempts accept j i name_i w₁ (λ p. h.differ (sym p))
          (ap (find name_i) r₁.pair.users ∙ h.named_i) fresh₁ in
      (w₂, rw e₁ e₂, ground (arith, h, r₁, r₂), ground (arith, h, r₁, r₂))

  -- If one of the next room keys is not in Redis: a player who asks another one in the lobby, and
  -- is denied, is back in the lobby, and so is the other.
  apply-deny :
      (i j : ℕ) (name_i name_j : Text) (w : World S D)
      → AreInLobby i j name_i name_j w
      → HasFreshKey x attempts w
      → (w' : World S D) × ((relay x attempts apply i name_j w >>= relay x attempts deny j name_i)
          ≡ ok w')
        × AreInLobby i j name_i name_j w'
  apply-deny i j name_i name_j w h fresh =
      let (w₁, e₁, r₁, fresh₁) = apply_lem i j name_i name_j w h fresh in
      let (w₂, e₂, r₂) =
        relay-Relayed x attempts deny j i name_i w₁ (λ p. h.differ (sym p))
          (ap (find name_i) r₁.pair.users ∙ h.named_i) fresh₁ in
      (
        w₂,
        rw e₁ e₂,
        record {
          differ = h.differ;
          named_i = ap (find name_i) (r₂.pair.users ∙ r₁.pair.users) ∙ h.named_i;
          named_j = ap (find name_j) (r₂.pair.users ∙ r₁.pair.users) ∙ h.named_j;
          stat_i = ground (arith, h, r₁, r₂);
          stat_j = ground (arith, h, r₁, r₂);
        },
      )

  -- If one of the next room keys is not in Redis, and four different players are in the lobby: when
  -- `a` has asked `b`, and `c` has asked `d`, `b` can accept in the name of `c`, who never asked
  -- `b`. Then `b` and `c` are matched, while `a` still waits for an answer and `d` still has a
  -- request to answer.
  pub accept_stranger :
      (a b c d : ℕ) (name_a name_b name_c name_d : Text) (w : World S D)
      → AreInLobby a b name_a name_b w
      → AreInLobby c d name_c name_d w
      → a ≢ c
      → a ≢ d
      → b ≢ c
      → b ≢ d
      → HasFreshKey x attempts w
      → (w' : World S D) × ((relay x attempts apply a name_b w >>= λ w₁.
            relay x attempts apply c name_d w₁ >>= relay x attempts accept b name_c)
          ≡ ok w')
        × ((w'.sessions b).stat ≡ match_complete)
        × ((w'.sessions c).stat ≡ match_complete)
        × ((w'.sessions a).stat ≡ match_apply)
        × ((w'.sessions d).stat ≡ match_recver)
  accept_stranger a b c d name_a name_b name_c name_d w h k ac ad bc bd fresh =
      let (w₁, e₁, r₁, fresh₁) = apply_lem a b name_a name_b w h fresh in
      let c₁ = r₁.pair.others c (λ p. ac (sym p)) (λ p. bc (sym p)) in
      let d₁ = r₁.pair.others d (λ p. ad (sym p)) (λ p. bd (sym p)) in
      let k₁ : AreInLobby c d name_c name_d w₁ = record {
        differ = k.differ;
        named_i = ap (find name_c) r₁.pair.users ∙ k.named_i;
        named_j = ap (find name_d) r₁.pair.users ∙ k.named_j;
        stat_i = ap (λ (s : Session). s.stat) c₁ ∙ k.stat_i;
        stat_j = ap (λ (s : Session). s.stat) d₁ ∙ k.stat_j;
      } in
      let (w₂, e₂, r₂, fresh₂) = apply_lem c d name_c name_d w₁ k₁ fresh₁ in
      let a₂ = r₂.pair.others a ac ad in
      let b₂ = r₂.pair.others b bc bd in
      let (w₃, e₃, r₃) =
        relay-Relayed x attempts accept b c name_c w₂ bc
          (ap (find name_c) (r₂.pair.users ∙ r₁.pair.users) ∙ k.named_i) fresh₂ in
      let a₃ = r₃.pair.others a h.differ ac in
      let d₃ = r₃.pair.others d (λ p. bd (sym p)) (λ p. k.differ (sym p)) in
      (
        w₃,
        rw (e₁, e₂) e₃,
        ground (arith, h, k₁, r₁, r₂, r₃, a₂, b₂),
        ground (arith, h, k₁, r₁, r₂, r₃, a₂, b₂),
        ground (arith, h, r₁, a₂, a₃),
        ground (arith, k₁, r₂, d₃),
      )
