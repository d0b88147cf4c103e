-- ===== src/WebSockets/Throttle.antt =====
-- app/core/websocket_manager.py: how often one client is sent something on one channel.
use funding_radar.Base.{
  ℕ, ◌-◌, ◌≤◌, String, ◌≡◌, refl, Bool, true, false, some, List, [], ◌∷◌, arith, if◌then◌else◌,
  ◌==◌, ◌&&◌, by_text, by_value, Option-cases, Bool-cases, inl, inr, nat_beq_iff, ap, sym, ◌∙◌,
}
use funding_radar.Base.Dict.{Dict, lookup, insert, lookup-insert, lookup-insert_self}
use funding_radar.WebSockets.{
  ConnectionInfo, is_due, throttle_for, select_due, change_info, has_id, member,
}

abbrev pub mark_sent : ℕ → String → ConnectionInfo → ConnectionInfo
mark_sent now channel info = record info { last_sent = insert channel now info.last_sent }

lookup-change_info :
    (w ws : ℕ) (f : ConnectionInfo → ConnectionInfo) (infos : Dict ℕ ConnectionInfo)
    {i : ConnectionInfo}
    → lookup w infos ≡ some i
    → lookup ws (change_info w f infos) ≡ (if w == ws then some (f i) else lookup ws infos)
unfolding change_info
lookup-change_info w ws f infos {i} h = rw (h, change_info) (lookup-insert w ws (f i) infos)

not_due_again :
    (now : ℕ) (channel : String) (info : ConnectionInfo)
    → is_due now channel (mark_sent now channel info) ≡ false
unfolding is_due throttle_for
not_due_again now channel info = rw lookup-insert_self (ground arith)

due_after :
    (first then_at : ℕ) (channel : String) (info : ConnectionInfo) (b : Bool)
    → (b && is_due then_at channel (mark_sent first channel info)) ≡ true
    → throttle_for info.tier ≤ then_at - first
unfolding is_due
due_after first then_at channel info false h = cc
due_after first then_at channel info true h = let h' = rw lookup-insert_self at h in ground arith

-- In one pass of `broadcast` a known client is sent the text exactly if it is a subscriber and due, and
-- then, and only then, its last send on the channel becomes `now`; the rest of it stays.
pub select_due_lem :
    (now : ℕ) (channel : String) (subs : List ℕ) (ws : ℕ) (infos : Dict ℕ ConnectionInfo)
    (info : ConnectionInfo)
    → lookup ws infos ≡ some info
    → let chosen = has_id ws subs && is_due now channel info in
      (has_id ws (select_due now channel subs infos).1 ≡ chosen)
      × (lookup ws (select_due now channel subs infos).0
          ≡ some (if chosen then mark_sent now channel info else info))
unfolding select_due member
select_due_lem now channel [] ws infos info h = (refl, h)
select_due_lem now channel (w ∷ rest) ws infos info h = elim (Option-cases (lookup w infos)) [
  | inl gone ↦
      ground
        (arith, nat_beq_iff w ws, nat_beq_iff ws w, select_due_lem now channel rest ws infos info h)
  | inr (i, here) ↦
      let later = change_info w (mark_sent now channel) infos in
      let found = lookup-change_info w ws (mark_sent now channel) infos here in
      elim (Bool-cases (w == ws)) [
        | inl same ↦
            let found' : lookup ws later ≡ some (mark_sent now channel i) = rw same at found in
            ground (
              arith,
              nat_beq_iff w ws,
              not_due_again now channel i,
              select_due_lem now channel rest ws later (mark_sent now channel i) found',
              select_due_lem now channel rest ws infos info h,
            )
        | inr other ↦
            let found' : lookup ws later ≡ lookup ws infos = rw other at found in
            ground (
              arith,
              nat_beq_iff w ws,
              select_due_lem now channel rest ws later info (found' ∙ h),
              select_due_lem now channel rest ws infos info h,
            )
      ]
]

-- Where a pass of `broadcast` sends to a known client on the channel, and the next pass, over what the
-- first left behind, sends to it again, the time of its tier has passed between the two.
pub select_due_spacing :
    (first then_at : ℕ) (channel : String) (subs later_subs : List ℕ) (ws : ℕ)
    (infos : Dict ℕ ConnectionInfo) (info : ConnectionInfo)
    → lookup ws infos ≡ some info
    → has_id ws (select_due first channel subs infos).1 ≡ true
    → has_id ws (select_due then_at channel later_subs (select_due first channel subs infos).0).1
      ≡ true
    → throttle_for info.tier ≤ then_at - first
select_due_spacing first then_at channel subs later_subs ws infos info h sent again =
    let (chosen, left) = select_due_lem first channel subs ws infos info h in
    let left' : lookup ws (select_due first channel subs infos).0
        ≡ some (mark_sent first channel info) =
      left
      ∙ ap (λ (b : Bool). some (if b then mark_sent first channel info else info))
          (sym chosen ∙ sent) in
    let due =
      (select_due_lem then_at channel later_subs ws (select_due first channel subs infos).0
        (mark_sent first channel info) left').0 in
    due_after first then_at channel info (has_id ws later_subs) (sym due ∙ again)
