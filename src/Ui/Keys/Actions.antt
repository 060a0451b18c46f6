-- ===== src/Ui/Keys/Actions.antt =====
-- crates/wicara/src/ui.rs: what keys send, and when they stop the program.
use wicara.Prelude.{
  ℕ, ◌-◌, ◌≡◌, sym, ◌∙◌, ap, Bool, true, false, bytes_eq, length, ◌&&◌, ◌||◌, Option, none, some,
  List, [], ◌∷◌, Bytes, ℕ_discrete, nat_eq, ◌==◌, leb, Option-cases, Bool-cases, inl, inr, arith,
  get_elem?, codes,
}
use wicara.Wire.{MessageId}
use wicara.Ui.{Chars, Entry, UiCommand, delete, edit, react, quit, on_chat, edit_of, Ui}
use wicara.Ui.Events.{peer_at, selected_key}
use wicara.Ui.Text.{trim, split_once}
use wicara.Ui.Commands.{emit, say, selected_peer, slash, as_command, enter_line, submit}
use wicara.Ui.Keys.{
  KeyCode, enter, char, KeyEvent, emojis, reaction_on, Delta, moved, select_peer, cursor_entry,
  act_on, chat_action, edit_line, in_input, going_on, on_code, is_char, is_ctrl_c, on_key,
}

going_on-true : (o : Option Ui) (v : Ui) → going_on o ≡ some (v, false) → ◌≡◌ {A = ℕ} 1 0
unfolding going_on
going_on-true none v h = cc
going_on-true (some u) v h = cc

slash-quits :
    (from_hex : Chars → Option Bytes) (rest : Chars) (u v : Ui)
    → slash from_hex rest u ≡ (v, false)
    → v ≡ emit quit u
unfolding slash
slash-quits from_hex rest u v h = elim (Bool-cases ((split_once rest).0 == codes "quit")) [
  | inl e ↦ ground (arith, e)
  | inr e ↦ ground (arith, e)
]

enter_line-quits :
    (from_hex : Chars → Option Bytes) (body : Chars) (u v : Ui)
    → enter_line from_hex body u ≡ (v, false)
    → v ≡ emit quit u
unfolding enter_line
enter_line-quits from_hex [] u v h = cc
enter_line-quits from_hex (c ∷ rest) u v h = elim (Bool-cases (c == 47)) [
  | inl e ↦
      let t : slash from_hex rest u ≡ (v, false) = ground (arith, e, h) in
      slash-quits from_hex rest u v t
  | inr e ↦ ground (arith, e, h)
]

on_code-quits :
    (from_hex : Chars → Option Bytes) (code : KeyCode) (u v : Ui)
    → on_code from_hex code u ≡ some (v, false)
    → v ≡ emit quit (record u { input = []; caret = 0 })
unfolding on_code going_on submit in_input edit_line
on_code-quits from_hex enter u v h =
    let t : submit from_hex u ≡ (v, false) = ground (arith, h) in
    enter_line-quits from_hex (trim u.input) _ v t
on_code-quits from_hex code u v h = ground (arith, h)

cons_longer : {A : Type 0} (x : A) (xs : List A) → xs ≡ x ∷ xs → ◌≡◌ {A = ℕ} 1 0
cons_longer x xs h = omega (arith, ap length h)

react_is_no_delete :
    {key peer : Bytes} {id : MessageId} {target : MessageId} {emoji : Chars} {on : Bool}
    (xs ys : List UiCommand)
    → react key target emoji on ∷ xs ≡ delete peer id ∷ ys
    → ⊥
react_is_no_delete xs ys h = cc

act_on-deletes :
    (key : Bytes) (e : Entry) (c : ℕ) (u v : Ui) (peer : Bytes) (id : MessageId)
    → act_on key e c u ≡ some v
    → v.sent ≡ delete peer id ∷ u.sent
    → ((e.id ≡ id) × (e.outbound ≡ true) × (e.deleted ≡ false)) × (key ≡ peer)
unfolding act_on say emit
act_on-deletes key e c u v peer id acts h =
    let nothing : v.sent ≡ u.sent → ◌≡◌ {A = ℕ} 1 0 =
      λ s. cons_longer (delete peer id) u.sent (sym s ∙ h) in
    elim (ℕ_discrete c 100) [
      | no q ↦ elim (Option-cases (get_elem? emojis (c - 49))) [
        | inl g ↦ absurd (omega (arith, nothing (ground (arith, q, g, acts))))
        | inr (emoji, g) ↦ elim (Bool-cases (leb 49 c && leb c 53)) [
          | inl b ↦
              let s : v.sent ≡ react key e.id emoji (reaction_on e emoji) ∷ u.sent =
                ground (arith, q, g, b, acts) in
              absurd (react_is_no_delete _ _ (sym s ∙ h))
          | inr b ↦ absurd (omega (arith, nothing (ground (arith, q, g, b, acts))))
        ]
      ]
      | yes q ↦ elim (Bool-cases e.outbound) [
        | inr o ↦ absurd (omega (arith, nothing (ground (arith, q, o, acts))))
        | inl o ↦ elim (Bool-cases e.deleted) [
          | inl d ↦ absurd (omega (arith, nothing (ground (arith, q, o, d, acts))))
          | inr d ↦
              let s : v.sent ≡ delete key e.id ∷ u.sent = ground (arith, q, o, d, acts) in
              let both : delete key e.id ∷ u.sent ≡ delete peer id ∷ u.sent = sym s ∙ h in
              ((cc, o, d), cc)
        ]
      ]
    ]

-- Deleting from the chat pane is for one's own messages: the pane sends a deletion only of the message
-- under the cursor of the selected conversation, to that conversation, and only if the message went out
-- from here and has not been deleted.
pub delete_is_own :
    (c : ℕ) (u v : Ui) (peer : Bytes) (id : MessageId)
    → chat_action c u ≡ some v
    → v.sent ≡ delete peer id ∷ u.sent
    → (e : Entry) × (cursor_entry u ≡ some (peer, e))
      × (e.id ≡ id)
      × (e.outbound ≡ true)
      × (e.deleted ≡ false)
unfolding chat_action
delete_is_own c u v peer id done h = elim (Option-cases (cursor_entry u)) [
  | inl e ↦
      let same : u ≡ v = ground (arith, e, done) in
      let still : u.sent ≡ delete peer id ∷ u.sent = ap (λ (x : Ui). x.sent) same ∙ h in
      absurd (omega (arith, cons_longer (delete peer id) u.sent still))
  | inr ((key, entry), e) ↦
      let acts : act_on key entry c u ≡ some v = ground (arith, e, done) in
      let (own, same) = act_on-deletes key entry c u v peer id acts h in
      (entry, e ∙ ap (λ k. some (k, entry)) same, own.0, own.1, own.2)
]

-- `on_key` stops the program only after it has sent the command to quit.
pub stops_by_quit :
    (from_hex : Chars → Option Bytes) (key : KeyEvent) (u v : Ui)
    → on_key from_hex key u ≡ some (v, false)
    → v.sent ≡ quit ∷ u.sent
unfolding on_key emit
stops_by_quit from_hex key u v h = elim (Bool-cases key.press) [
  | inr p ↦ ground (arith, p, h)
  | inl p ↦ elim (Bool-cases (is_ctrl_c key)) [
    | inl q ↦ ground (arith, p, q, h)
    | inr q ↦
        let closed : Ui = record u { help = false; members = false; net = false } in
        elim (Bool-cases (u.help || (u.members || u.net))) [
          | inr r ↦
              let t : on_code from_hex key.code u ≡ some (v, false) = ground (arith, p, q, r, h) in
              ap (λ (x : Ui). x.sent) (on_code-quits from_hex key.code u v t)
          | inl r ↦ elim (Bool-cases (is_char key.code)) [
            | inl s ↦
                let t : on_code from_hex key.code closed ≡ some (v, false) =
                  ground (arith, p, q, r, s, h) in
                ap (λ (x : Ui). x.sent) (on_code-quits from_hex key.code closed v t)
            | inr s ↦ ground (arith, p, q, r, s, h)
          ]
        ]
  ]
]

-- The key that closes an overlay acts as well: with `/help` open and the focus on the chat, `d`
-- closes it and deletes the message under the cursor, if that is one's own and not deleted.
pub overlay_key_deletes :
    (from_hex : Chars → Option Bytes) (u : Ui) (peer : Bytes) (e : Entry)
    → u.help ≡ true
    → u.focus ≡ on_chat
    → cursor_entry u ≡ some (peer, e)
    → e.outbound ≡ true
    → e.deleted ≡ false
    → on_key from_hex (record { press = true; ctrl = false; code = char 100 }) u
      ≡ some
          (emit (delete peer e.id) (record u { help = false; members = false; net = false }), true)
unfolding on_key on_code going_on chat_action act_on is_char is_ctrl_c cursor_entry selected_peer
overlay_key_deletes from_hex u peer e shown pane under own kept =
    let closed : Ui = record u { help = false; members = false; net = false } in
    let through : on_key from_hex (record { press = true; ctrl = false; code = char 100 }) u
        ≡ on_code from_hex (char 100) closed =
      ground (arith, shown) in
    let typed : on_code from_hex (char 100) closed ≡ going_on (chat_action 100 closed) =
      ground (arith, pane) in
    let at : cursor_entry closed ≡ some (peer, e) = under in
    let acts : chat_action 100 closed ≡ act_on peer e 100 closed = ground (arith, at) in
    let deletes : act_on peer e 100 closed ≡ some (emit (delete peer e.id) closed) =
      ground (arith, own, kept) in
    through ∙ typed ∙ ap going_on (acts ∙ deletes)

select_peer-rest :
    (delta : Delta) (u w : Ui)
    → select_peer delta u ≡ some w
    → (w.pending ≡ u.pending) × (w.input ≡ u.input) × (w.sent ≡ u.sent)
unfolding select_peer peer_at
select_peer-rest delta u w h = elim (Bool-cases (length u.peers == 0)) [
  | inl e ↦ (ground (arith, e), ground (arith, e), ground (arith, e))
  | inr e ↦ elim (Option-cases (get_elem? u.peers (moved delta (length u.peers) u.sel))) [
    | inl g ↦ ground (arith, e, g)
    | inr (p, g) ↦ (ground (arith, e, g), ground (arith, e, g), ground (arith, e, g))
  ]
]

submit-edits :
    (from_hex : Chars → Option Bytes) (u : Ui) (id : MessageId) (peer : Bytes) (c : ℕ)
    (rest : Chars)
    → u.pending ≡ some (edit_of id)
    → trim u.input ≡ c ∷ rest
    → (c == 47) ≡ false
    → selected_key u ≡ some peer
    → (submit from_hex u).0.sent ≡ edit peer id (c ∷ rest) ∷ u.sent
unfolding submit enter_line as_command emit selected_key
submit-edits from_hex u id peer c rest pending text plain there =
    let v : Ui = record u { input = []; caret = 0 } in
    let at : selected_key v ≡ some peer = there in
    let step : (enter_line from_hex (c ∷ rest) v).0.sent ≡ edit peer id (c ∷ rest) ∷ u.sent =
      ground (arith, at, plain, pending) in
    ap (λ x. (enter_line from_hex x v).0.sent) text ∙ step

-- An edit that is pending outlives the choice of another conversation: the line that is entered
-- then, if it is no command and not empty, is sent as an edit of the message that was chosen
-- before, to the conversation that is selected now.
pub pending_edit_follows_selection :
    (from_hex : Chars → Option Bytes) (delta : Delta) (u w : Ui) (id : MessageId) (peer : Bytes)
    (c : ℕ) (rest : Chars)
    → select_peer delta u ≡ some w
    → u.pending ≡ some (edit_of id)
    → trim u.input ≡ c ∷ rest
    → (c == 47) ≡ false
    → selected_key w ≡ some peer
    → (submit from_hex w).0.sent ≡ edit peer id (c ∷ rest) ∷ u.sent
pending_edit_follows_selection from_hex delta u w id peer c rest chosen pending text plain there =
    let (same_pending, same_input, same_sent) = select_peer-rest delta u w chosen in
    submit-edits from_hex w id peer c rest (same_pending ∙ pending) (ap trim same_input ∙ text)
      plain there
    ∙ ap (λ x. edit peer id (c ∷ rest) ∷ x) same_sent
