-- ===== src/Webhook/DedupCache/Keys.antt =====
-- internal/webhook/message_dedup_cache.go: the composite keys of the two modes.
use contextmatrix_runner.Prelude.{
  ◌≡◌, refl, ◌≢◌, false, [], ◌∷◌, ◌++◌, Text, contains_byte, split_unique, arith,
}
use contextmatrix_runner.Webhook.DedupCache.{message_dedup_key, chat_dedup_key}

-- No NUL byte, as `validateIdent` guarantees.
abbrev pub HasNoNul : Text → Type 0
HasNoNul s = contains_byte s 0 ≡ false

-- Two card-mode keys are equal only for the same project, card and message, where neither project nor
-- card holds a NUL byte.
pub message_dedup_key_injective :
    (p c m p' c' m' : Text)
    → HasNoNul p
    → HasNoNul c
    → HasNoNul p'
    → HasNoNul c'
    → message_dedup_key p c m ≡ message_dedup_key p' c' m'
    → (p ≡ p') × (c ≡ c') × (m ≡ m')
unfolding message_dedup_key
message_dedup_key_injective p c m p' c' m' hp hc hp' hc' e =
    let (same_p, rest) = split_unique 0 p p' (c ++ 0 ∷ m) (c' ++ 0 ∷ m') hp hp' e in
    let (same_c, same_m) = split_unique 0 c c' m m' hc hc' rest in (same_p, same_c, same_m)

-- Two chat-mode keys are equal only for the same session and message.
pub chat_dedup_key_injective :
    (s m s' m' : Text)
    → HasNoNul s
    → HasNoNul s'
    → chat_dedup_key s m ≡ chat_dedup_key s' m'
    → (s ≡ s') × (m ≡ m')
unfolding chat_dedup_key
chat_dedup_key_injective s m s' m' h h' e =
    let rest : (s ++ 0 ∷ m) ≡ (s' ++ 0 ∷ m') = cc in split_unique 0 s s' m m' h h' rest

-- A card-mode key whose project is not empty and holds no NUL byte is no chat-mode key.
pub message_dedup_key-ne-chat_dedup_key :
    (p c m s m' : Text) → p ≢ [] → HasNoNul p → message_dedup_key p c m ≢ chat_dedup_key s m'
unfolding message_dedup_key chat_dedup_key
message_dedup_key-ne-chat_dedup_key [] c m s m' ne h e = ne refl
message_dedup_key-ne-chat_dedup_key (b ∷ p) c m s m' ne h e = ground arith
