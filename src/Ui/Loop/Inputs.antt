-- ===== src/Ui/Loop/Inputs.antt =====
-- crates/wicara/src/ui.rs: what keys and clicks do to a state that is sound, and `event_loop` from the first
-- state on.
use wicara.Prelude.{
  ℕ, suc, ◌+◌, ◌-◌, ◌≤◌, ◌≡◌, refl, ap, ◌⊎◌, Bool, true, false, not, ◌&&◌, ◌||◌, Option, none, some,
  [], ◌∷◌, Bytes, codes, nat_eq, ◌==◌, if◌then◌else◌, length, get_elem?, leb, List, update_at,
  Option-cases, Bool-cases, inl, inr, arith,
}
use wicara.Ui.{
  Chars, Entry, reply_to, edit_of, delete, react, quit, on_peers, on_chat, on_input, Peer, Ui,
}
use native.Mathlib.Omega.{mod_fact}
use wicara.Ui.Text.{byte_len, trim}
use wicara.Ui.Editing.{Line, backspace, delete_at, go_left, go_right, insert_char}
use wicara.Ui.Editing.Caret.{
  IsPlaced, insert_char-total, backspace-total, delete_at-total, go_left-total, go_right-total,
}
use wicara.Ui.Commands.{emit, say, enter_line, submit}
use wicara.Ui.Events.Index.{length-update_at}
use wicara.Ui.Keys.{
  emojis, KeyCode, tab, back_tab, esc, page_up, page_down, up, down, left, right, enter, erase,
  delete_key, home, end, char, other, KeyEvent, Delta, minus_one, plus_one, mark_read, moved,
  select_peer, clamped, step_cursor, move_cursor, cursor_entry, reaction_on, act_on, chat_action,
  edit_line, in_input, going_on, on_code, is_char, is_ctrl_c, on_key,
}
use wicara.Ui.Loop.Sound.{IsOnMessage, IsSound, Change, update-IsSound, peer_at-some}
use wicara.Ui.Events.{peer_at}
use wicara.Ui.Loop.Slash.{
  line-IsSound, start-IsBoundary, end-IsBoundary, core, core-IsSound, slash-IsSound,
}

moved_bound : (delta : Delta) (n i : ℕ) → (n == 0) ≡ false → moved delta n i ≤ n - 1
unfolding moved
moved_bound delta ℕ.zero i h = ground (arith, h)
moved_bound minus_one (suc n) i h = omega (arith, mod_fact (i + (suc n - 1)) n)
moved_bound plus_one (suc n) i h = omega (arith, mod_fact (i + 1) n)

mark_read-Change : Change mark_read
unfolding mark_read IsOnMessage
mark_read-Change = record { keeps = λ p. refl; stays = λ p h. h }

-- another peer selected, one that there is
select-IsSound :
    (sel : ℕ) (f : Peer → Peer) (u : Ui)
    → Change f
    → sel ≤ length u.peers - 1
    → IsSound u
    → IsSound (record u { sel = sel; peers = update_at sel f u.peers })
unfolding IsSound
select-IsSound sel f u change range (indexed, old, cursors, caret) =
    let (there, _, marked, _) = update-IsSound f sel u change (indexed, old, cursors, caret) in
    (there, rw (length-update_at sel f u.peers) range, marked, caret)

get_elem?-none : {A : Type 0} (xs : List A) (i : ℕ) → get_elem? xs i ≡ none → length xs ≤ i
get_elem?-none [] i h = omega arith
get_elem?-none (x ∷ xs) ℕ.zero h = cc
get_elem?-none (x ∷ xs) (suc i) h = omega (arith, get_elem?-none xs i h)

in_range :
    {A : Type 0} (xs : List A) (i : ℕ) → suc i ≤ length xs → (x : A) × (get_elem? xs i ≡ some x)
in_range xs i h = elim (Option-cases (get_elem? xs i)) [
  | inl out ↦ absurd (omega (arith, get_elem?-none xs i out))
  | inr found ↦ found
]

-- another peer selected and marked as read, whatever of the rest changes
pub peer_at-IsSound :
    (sel : ℕ) (u v : Ui)
    → core v ≡ core (record u { sel = sel })
    → suc sel ≤ length u.peers
    → IsSound u
    → (w : Ui) × (peer_at mark_read (v, sel) ≡ some w) × IsSound w
unfolding core
peer_at-IsSound sel u v same range s =
    let peers : v.peers ≡ u.peers = ap (λ x. x.0) same in
    let (p, at) = in_range v.peers sel (rw peers range) in
    let w : Ui = record v { peers = update_at sel mark_read v.peers } in
    let there = select-IsSound sel mark_read u mark_read-Change (omega arith) s in
    let moved_there : core w
        ≡ core (record u { sel = sel; peers = update_at sel mark_read u.peers }) =
      ap (λ x. (update_at sel mark_read x.0, x.1, x.2, x.3, x.4)) same in
    (w, peer_at-some mark_read v sel p at, core-IsSound _ w moved_there there)

pub select_peer-IsSound :
    (delta : Delta) (u : Ui) → IsSound u → (v : Ui) × (select_peer delta u ≡ some v) × IsSound v
unfolding select_peer core
select_peer-IsSound delta u s =
    let sel = moved delta (length u.peers) u.sel in
    elim (Bool-cases (length u.peers == 0)) [
      | inl e ↦ (u, rw (e, select_peer) refl, s)
      | inr e ↦
          let bound = moved_bound delta (length u.peers) u.sel e in
          let (w, got, sound) =
            peer_at-IsSound sel u (record u { sel = sel; scroll = 0 }) refl
              (ground (arith, bound, e)) s in
          (w, rw (e, select_peer) got, sound)
    ]

step_cursor-Change : (delta : Delta) → Change (step_cursor delta)
unfolding step_cursor clamped IsOnMessage
step_cursor-Change minus_one = record { keeps = λ p. ground arith; stays = λ p h. ground arith }
step_cursor-Change plus_one = record { keeps = λ p. ground arith; stays = λ p h. ground arith }

move_cursor-IsSound : (delta : Delta) (u : Ui) → IsSound u → IsSound (move_cursor delta u)
unfolding move_cursor
move_cursor-IsSound delta u s =
    update-IsSound (step_cursor delta) u.sel u (step_cursor-Change delta) s

-- the keys of the reactions are within the list of emojis
emoji_there :
    (c : ℕ) → (leb 49 c && leb c 53) ≡ true → (e : Chars) × (get_elem? emojis (c - 49) ≡ some e)
emoji_there c h = elim (Option-cases (get_elem? emojis (c - 49))) [
  | inl none_there ↦
      let five : length emojis ≡ 5 = refl in
      let out = get_elem?-none emojis (c - 49) none_there in
      let low : 49 ≤ c = ground (arith, h) in
      let high : c ≤ 53 = ground (arith, h) in absurd (omega (arith, five, out, low, high))
  | inr found ↦ found
]

act_on-core :
    (peer : Bytes) (e : Entry) (c : ℕ) (u : Ui)
    → (v : Ui) × (act_on peer e c u ≡ some v)
      × ((core v ≡ core u) ⊎ (core v ≡ core (record u { input = e.body; caret = byte_len e.body })))
unfolding act_on core say emit
act_on-core peer e c u = elim (Bool-cases (c == 114)) [
  | inl a ↦ (record u { pending = some (reply_to e.id); focus = on_input }, rw (a) refl, inl refl)
  | inr a ↦ elim (Bool-cases (c == 101 && (e.outbound && not e.deleted))) [
    | inl b ↦ (
      record u {
        pending = some (edit_of e.id);
        input = e.body;
        caret = byte_len e.body;
        focus = on_input;
      },
      rw (a, b) refl,
      inr refl,
    )
    | inr b ↦ elim (Bool-cases (c == 101)) [
      | inl d ↦ (say (codes "you can only edit your own messages") u, rw (a, b, d) refl, inl refl)
      | inr d ↦ elim (Bool-cases (c == 100 && (e.outbound && not e.deleted))) [
        | inl f ↦ (emit (delete peer e.id) u, rw (a, b, d, f) refl, inl refl)
        | inr f ↦ elim (Bool-cases (c == 100)) [
          | inl g ↦ (
            say (codes "you can only delete your own messages") u,
            rw (a, b, d, f, g) refl,
            inl refl,
          )
          | inr g ↦ elim (Bool-cases (leb 49 c && leb c 53)) [
            | inl m ↦
                let (emoji, found) = emoji_there c m in
                (
                  emit (react peer e.id emoji (reaction_on e emoji)) u,
                  rw (a, b, d, f, g, m, found) refl,
                  inl refl,
                )
            | inr m ↦ (u, rw (a, b, d, f, g, m) refl, inl refl)
          ]
        ]
      ]
    ]
  ]
]

chat_action-IsSound :
    (c : ℕ) (u : Ui) → IsSound u → (v : Ui) × (chat_action c u ≡ some v) × IsSound v
unfolding chat_action
chat_action-IsSound c u s = elim (Option-cases (cursor_entry u)) [
  | inl e ↦ (u, rw (e, chat_action) refl, s)
  | inr ((peer, entry), e) ↦
      let (v, acts, kept) = act_on-core peer entry c u in
      let acted : IsSound v = elim kept [
        | inl same ↦ core-IsSound u _ same s
        | inr edits ↦
            core-IsSound _ _ edits (line-IsSound u entry.body _ (end-IsBoundary entry.body) s)
      ] in
      (v, rw (e, chat_action) acts, acted)
]

edit_line-IsSound :
    (f : Line → Option Line) (u : Ui)
    → ((l : Line) → IsPlaced l → (l' : Line) × (f l ≡ some l') × IsPlaced l')
    → IsSound u
    → (v : Ui) × (edit_line f u ≡ some v) × IsSound v
unfolding edit_line IsSound
edit_line-IsSound f u total (indexed, sel, cursors, caret) =
    let (l, got, placed) = total (record { input = u.input; caret = u.caret }) caret in
    (
      record u { input = l.input; caret = l.caret },
      rw (got, edit_line) refl,
      (indexed, sel, cursors, placed),
    )

in_input-IsSound :
    (f : Line → Option Line) (u : Ui)
    → ((l : Line) → IsPlaced l → (l' : Line) × (f l ≡ some l') × IsPlaced l')
    → IsSound u
    → (v : Ui) × (in_input f u ≡ some v) × IsSound v
unfolding in_input
in_input-IsSound f u total s =
    elim u.focus
      as (λ x.
        (v : Ui) × ((elim x [ on_input ↦ edit_line f u | _ ↦ some u ]) ≡ some v) × IsSound v) [
          | on_input ↦ edit_line-IsSound f u total s
          | on_peers ↦ (u, refl, s)
          | on_chat ↦ (u, refl, s)
        ]

-- the outcome of a key or click: no panic, and a state that is sound
abbrev pub IsFine : Option (Ui × Bool) → Type 0
IsFine o = (v : Ui) × (on : Bool) × (o ≡ some (v, on)) × IsSound v

if-IsFine :
    (b : Bool) (o p : Option (Ui × Bool)) → IsFine o → IsFine p → IsFine (if b then o else p)
if-IsFine true o p ho hp = ho
if-IsFine false o p ho hp = hp

pub going_on-IsFine : (o : Option Ui) → (v : Ui) × (o ≡ some v) × IsSound v → IsFine (going_on o)
unfolding going_on
going_on-IsFine o (v, got, s) = (v, true, ap going_on got, s)

enter_line-IsSound :
    (from_hex : Chars → Option Bytes) (body : Chars) (u : Ui)
    → IsSound u
    → IsSound (enter_line from_hex body u).0
unfolding enter_line core say emit
enter_line-IsSound from_hex [] u s = core-IsSound u _ refl s
enter_line-IsSound from_hex (c ∷ rest) u s = elim (Bool-cases (c == 47)) [
  | inl e ↦ rw (e, enter_line) (slash-IsSound from_hex rest u s)
  | inr e ↦ core-IsSound u _ (ground (arith, e)) s
]

submit-IsSound :
    (from_hex : Chars → Option Bytes) (u : Ui) → IsSound u → IsSound (submit from_hex u).0
unfolding submit
submit-IsSound from_hex u s =
    enter_line-IsSound from_hex (trim u.input) _ (line-IsSound u [] 0 (start-IsBoundary []) s)

on_code-IsFine :
    (from_hex : Chars → Option Bytes) (code : KeyCode) (u : Ui)
    → IsSound u
    → IsFine (on_code from_hex code u)
unfolding on_code core
on_code-IsFine from_hex tab u s = (_, true, refl, core-IsSound u _ refl s)
on_code-IsFine from_hex back_tab u s = (_, true, refl, core-IsSound u _ refl s)
on_code-IsFine from_hex esc u s = (
  _,
  true,
  refl,
  core-IsSound (record u { input = []; caret = 0 }) _ refl
      (line-IsSound u [] 0 (start-IsBoundary []) s),
)
on_code-IsFine from_hex page_up u s = (_, true, refl, core-IsSound u _ refl s)
on_code-IsFine from_hex page_down u s = (_, true, refl, core-IsSound u _ refl s)
on_code-IsFine from_hex up u s =
    elim u.focus
      as (λ x. IsFine (elim x [
        | on_peers ↦ going_on (select_peer minus_one u)
        | on_chat ↦ some (move_cursor minus_one u, true)
        | on_input ↦ some (record u { scroll = u.scroll + 1 }, true)
      ])) [
        | on_peers ↦ going_on-IsFine _ (select_peer-IsSound minus_one u s)
        | on_chat ↦ (_, true, refl, move_cursor-IsSound minus_one u s)
        | on_input ↦ (_, true, refl, core-IsSound u _ refl s)
      ]
on_code-IsFine from_hex down u s =
    elim u.focus
      as (λ x. IsFine (elim x [
        | on_peers ↦ going_on (select_peer plus_one u)
        | on_chat ↦ some (move_cursor plus_one u, true)
        | on_input ↦ some (record u { scroll = u.scroll - 1 }, true)
      ])) [
        | on_peers ↦ going_on-IsFine _ (select_peer-IsSound plus_one u s)
        | on_chat ↦ (_, true, refl, move_cursor-IsSound plus_one u s)
        | on_input ↦ (_, true, refl, core-IsSound u _ refl s)
      ]
on_code-IsFine from_hex enter u s = (_, _, refl, submit-IsSound from_hex u s)
on_code-IsFine from_hex (char c) u s =
    elim u.focus
      as (λ x. IsFine (elim x [
        | on_chat ↦ going_on (chat_action c u)
        | on_input ↦ going_on (edit_line (insert_char c) u)
        | on_peers ↦ some (u, true)
      ])) [
        | on_peers ↦ (u, true, refl, s)
        | on_chat ↦ going_on-IsFine _ (chat_action-IsSound c u s)
        | on_input ↦ going_on-IsFine _ (edit_line-IsSound (insert_char c) u (insert_char-total c) s)
      ]
on_code-IsFine from_hex erase u s =
    going_on-IsFine _ (in_input-IsSound backspace u backspace-total s)
on_code-IsFine from_hex delete_key u s =
    going_on-IsFine _ (in_input-IsSound delete_at u delete_at-total s)
on_code-IsFine from_hex left u s = going_on-IsFine _ (in_input-IsSound go_left u go_left-total s)
on_code-IsFine from_hex right u s = going_on-IsFine _ (in_input-IsSound go_right u go_right-total s)
on_code-IsFine from_hex home u s =
    (_, true, refl, line-IsSound u u.input 0 (start-IsBoundary u.input) s)
on_code-IsFine from_hex end u s =
    (_, true, refl, line-IsSound u u.input _ (end-IsBoundary u.input) s)
on_code-IsFine from_hex other u s = (u, true, refl, s)

-- no key makes the interface panic, and what is sound stays so
pub on_key-IsFine :
    (from_hex : Chars → Option Bytes) (key : KeyEvent) (u : Ui)
    → IsSound u
    → IsFine (on_key from_hex key u)
unfolding on_key core emit
on_key-IsFine from_hex key u s =
    let v : Ui = record u { help = false; members = false; net = false } in
    let closed : IsSound v = core-IsSound u v refl s in
    let dismissed =
      if-IsFine (is_char key.code) (on_code from_hex key.code v) (some (v, true))
        (on_code-IsFine from_hex key.code v closed) (v, true, refl, closed) in
    let acted =
      if-IsFine (u.help || (u.members || u.net)) _ (on_code from_hex key.code u) dismissed
        (on_code-IsFine from_hex key.code u s) in
    let stopped =
      if-IsFine (is_ctrl_c key) (some (emit quit u, false)) _
        (_, false, refl, core-IsSound u _ refl s) acted in
    if-IsFine (not key.press) (some (u, true)) _ (u, true, refl, s) stopped
