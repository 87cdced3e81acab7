-- ===== src/Tracker/Keys.antt =====
-- internal/tracker/tracker.go: the keys of cards and chats in the one map.
use contextmatrix_runner.Prelude.{
  ◌≡◌, refl, ◌≢◌, ◌⊎◌, false, none, [], ◌∷◌, Text, text_beq, text_beq_iff, text_beq_refl,
  text_beq_ne, sym, contains_byte, split_unique, inl, inr, if◌then◌else◌, arith,
}
use contextmatrix_runner.Prelude.Dict.{lookup, IsDict, lookup-delete}
use contextmatrix_runner.Tracker.{
  Tracker, key, chat_key, has_at, remove_at, detach_at, close_async, snapshot_at,
}
use contextmatrix_runner.Tracker.Methods.{has, has_chat, snapshot, remove, remove_chat}

-- No slash, as `validateIdent` guarantees.
abbrev pub HasNoSlash : Text → Type 0
HasNoSlash s = contains_byte s 47 ≡ false

-- Projects that hold no slash: the key of a card is its own.
pub key_injective :
    (p c p' c' : Text) → HasNoSlash p → HasNoSlash p' → key p c ≡ key p' c' → (p ≡ p') × (c ≡ c')
unfolding key
key_injective p c p' c' h h' e = split_unique 47 p p' c c' h h' e

pub chat_key_injective : (s s' : Text) → chat_key s ≡ chat_key s' → s ≡ s'
unfolding chat_key
chat_key_injective s s' e = cc

-- A project that is not empty and holds no NUL byte: no card has the key of a chat.
pub key-ne-chat_key : (p c s : Text) → p ≢ [] → contains_byte p 0 ≡ false → key p c ≢ chat_key s
unfolding key chat_key
key-ne-chat_key [] c s ne h e = ne refl
key-ne-chat_key (b ∷ p) c s ne h e = ground arith

pub lookup-remove_at :
    (k q : Text) (t : Tracker)
    → IsDict t.containers
    → lookup q (remove_at k t).containers ≡ (if text_beq k q then none else lookup q t.containers)
unfolding remove_at detach_at close_async
lookup-remove_at k q t d = ground (arith, lookup-delete k q t.containers d, text_beq_iff k q)

has_at-remove_at :
    (k q : Text) (t : Tracker)
    → IsDict t.containers
    → has_at q (remove_at k t) ≡ (if text_beq k q then false else has_at q t)
unfolding has_at
has_at-remove_at k q t d = ground (arith, lookup-remove_at k q t d)

snapshot_at-remove_at :
    (k q : Text) (t : Tracker)
    → IsDict t.containers
    → snapshot_at q (remove_at k t) ≡ (if text_beq k q then none else snapshot_at q t)
unfolding snapshot_at
snapshot_at-remove_at k q t d = ground (arith, lookup-remove_at k q t d)

-- `RemoveChat` removes its chat, and leaves the entry of every card whose project is not empty and
-- holds no NUL byte.
pub remove_chat_isolated :
    (s p c : Text) (t : Tracker)
    → IsDict t.containers
    → p ≢ []
    → contains_byte p 0 ≡ false
    → (has_chat s (remove_chat s t) ≡ false) × (snapshot p c (remove_chat s t) ≡ snapshot p c t)
unfolding has_chat remove_chat snapshot
remove_chat_isolated s p c t d ne h =
    let other = text_beq_ne (chat_key s) (key p c) (λ e. key-ne-chat_key p c s ne h (sym e)) in
    (
      rw (has_at-remove_at (chat_key s) (chat_key s) t d, text_beq_refl (chat_key s)),
      rw (snapshot_at-remove_at (chat_key s) (key p c) t d, other),
    )

-- `Remove` removes its card, and leaves every chat and every other card, projects without a slash.
pub remove_isolated :
    (p c s p' c' : Text) (t : Tracker)
    → IsDict t.containers
    → p ≢ []
    → contains_byte p 0 ≡ false
    → HasNoSlash p
    → HasNoSlash p'
    → (p' ≢ p) ⊎ (c' ≢ c)
    → (has p c (remove p c t) ≡ false)
      × (has_chat s (remove p c t) ≡ has_chat s t)
      × (snapshot p' c' (remove p c t) ≡ snapshot p' c' t)
unfolding has_chat has remove snapshot
remove_isolated p c s p' c' t d ne h hs hs' other =
    let chat = text_beq_ne (key p c) (chat_key s) (key-ne-chat_key p c s ne h) in
    let card = text_beq_ne (key p c) (key p' c') (λ e.
      let (same_p, same_c) = key_injective p c p' c' hs hs' e in
      elim other [ inl np ↦ np (sym same_p) | inr nc ↦ nc (sym same_c) ]) in
    (
      rw (has_at-remove_at (key p c) (key p c) t d, text_beq_refl (key p c)),
      rw (has_at-remove_at (key p c) (chat_key s) t d, chat),
      rw (snapshot_at-remove_at (key p c) (key p' c') t d, card),
    )
