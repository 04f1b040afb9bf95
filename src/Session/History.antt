-- ===== src/Session/History.antt =====
-- The bounded history of a session against the full log of its conversation.
use mathlib.Core.List.{append-nil, append_assoc}
use native.Mathlib.Nat.{zero-add}
-- the last `n` elements of a list
use open_simple_agent.Base.{
  Bool-cases, List, [], arith, inl, inr, ltb, refl, suc, zero, ℕ, ◌++◌, ◌+◌, ◌-◌, ◌∷◌, ◌≡◌, ◌≤◌,
}
use open_simple_agent.Base.Clock.{Time}
use open_simple_agent.Base.Lists.{drop, length}
use open_simple_agent.Session.{Message, Session, add_message, trim}
use open_simple_agent.Base.{ap, sym, ◌∙◌}
use open_simple_agent.Base.Lists.{length-append, length-drop}
use open_simple_agent.Session.{history_window}

abbrev pub last {ℓ} : {A : Type ℓ} → ℕ → List A → List A
last n xs = drop (length xs - n) xs

drop-length {ℓ} : {A : Type ℓ} (xs ys : List A) → drop (length xs) (xs ++ ys) ≡ ys
drop-length [] ys = refl
drop-length (x ∷ xs) ys = drop-length xs ys

drop-append {ℓ} :
    {A : Type ℓ} (k : ℕ) (xs ys : List A) → k ≤ length xs → drop k (xs ++ ys) ≡ drop k xs ++ ys
drop-append zero xs ys h = refl
drop-append (suc k) [] ys h = absurd (omega arith)
drop-append (suc k) (x ∷ xs) ys h = drop-append k xs ys (omega arith)

drop-nil {ℓ} : {A : Type ℓ} (n : ℕ) → drop {A = A} n [] ≡ []
drop-nil zero = refl
drop-nil (suc n) = refl

drop-drop {ℓ} : {A : Type ℓ} (j k : ℕ) (xs : List A) → drop j (drop k xs) ≡ drop (k + j) xs
drop-drop j zero xs = rw zero-add
drop-drop j (suc k) [] = drop-nil j ∙ sym (drop-nil (suc k + j))
drop-drop j (suc k) (x ∷ xs) =
    let unfolded : suc k + j ≡ suc (k + j) = omega arith in rw unfolded (drop-drop j k xs)

trim-last : (bound : ℕ) (xs : List Message) → trim bound xs ≡ last bound xs
unfolding trim
trim-last bound xs = elim (Bool-cases (ltb bound (length xs))) [
  | inl over ↦ rw over
  | inr fits ↦ let none_over : length xs - bound ≡ 0 = ground arith in rw (fits, none_over)
]

-- Trimming after each message loses nothing that trimming at the end would keep.
last-last {ℓ} : {A : Type ℓ} (n : ℕ) (xs ys : List A) → last n (last n xs ++ ys) ≡ last n (xs ++ ys)
last-last n xs ys =
    let k = length xs - n in
    let total : k + (length (drop k xs ++ ys) - n) ≡ length (xs ++ ys) - n =
      omega
        (arith, length-append {ℓ} (drop k xs) ys, length-append {ℓ} xs ys, length-drop {ℓ} k xs) in
    (ap (drop (length (drop k xs ++ ys) - n)) (sym (drop-append k xs ys (omega arith))))
    ∙ drop-drop (length (drop k xs ++ ys) - n) k (xs ++ ys)
    ∙ rw total

-- the messages of a conversation, one after the other
unfoldable pub add_messages : Session → List (Message × Time) → Session
add_messages s [] = s
add_messages s ((message, now) ∷ rest) = add_messages (add_message s message now) rest

abbrev pub messages : List (Message × Time) → List Message
messages [] = []
messages ((message, _) ∷ rest) = message ∷ messages rest

drop_whole {ℓ} : {A : Type ℓ} (xs : List A) → drop (length xs) xs ≡ []
drop_whole [] = refl
drop_whole (x ∷ xs) = drop_whole xs

window-last : (s : Session) (limit : ℕ) → history_window s limit ≡ last limit s.conversation_history
unfolding history_window
window-last s zero =
    let all : length s.conversation_history - 0 ≡ length s.conversation_history = omega arith in
    rw all (sym (drop_whole s.conversation_history))
window-last s (suc n) = ground arith

last_fits {ℓ} : {A : Type ℓ} (n : ℕ) (xs : List A) → length xs ≤ n → last n xs ≡ xs
last_fits n xs h = let none_over : length xs - n ≡ 0 = omega arith in rw none_over

length-last {ℓ} : {A : Type ℓ} (n : ℕ) (xs : List A) → length (last n xs) ≤ n
length-last n xs = omega (arith, length-drop {ℓ} (length xs - n) xs)

last-last_le {ℓ} : {A : Type ℓ} (m n : ℕ) (xs : List A) → m ≤ n → last m (last n xs) ≡ last m xs
last-last_le m n xs h =
    let k = length xs - n in
    let total : k + (length (drop k xs) - m) ≡ length xs - m =
      omega (arith, length-drop {ℓ} k xs) in
    drop-drop (length (drop k xs) - m) k xs ∙ rw total

history-add_messages :
    (s : Session) (added : List (Message × Time))
    → length s.conversation_history ≤ s.max_history_messages
    → (add_messages s added).conversation_history
      ≡ last s.max_history_messages (s.conversation_history ++ messages added)
unfolding add_messages add_message
history-add_messages s [] fits =
    rw append-nil (sym (last_fits s.max_history_messages s.conversation_history fits))
history-add_messages s ((m, now) ∷ rest) fits =
    let bound = s.max_history_messages in
    let longer = s.conversation_history ++ m ∷ [] in
    let kept : (add_message s m now).conversation_history ≡ last bound longer =
      trim-last bound longer in
    let later : (add_messages (add_message s m now) rest).conversation_history
        ≡ last bound ((add_message s m now).conversation_history ++ messages rest) =
      history-add_messages (add_message s m now) rest
        (rw (trim-last bound longer) (length-last bound longer)) in
    later
    ∙ rw kept (last-last bound longer (messages rest))
    ∙ ap (last bound) (append_assoc s.conversation_history (m ∷ []) (messages rest))

-- However often messages are added, the history of a session is the end of the whole conversation,
-- as long as the bound allows; so it is never longer than the bound.
pub bounded_history :
    (s : Session) (added : List (Message × Time))
    → length s.conversation_history ≤ s.max_history_messages
    → ((add_messages s added).conversation_history
        ≡ last s.max_history_messages (s.conversation_history ++ messages added))
      × (length (add_messages s added).conversation_history ≤ s.max_history_messages)
bounded_history s added fits =
    let whole = s.conversation_history ++ messages added in
    let h = history-add_messages s added fits in
    (h, rw h (length-last s.max_history_messages whole))

-- A window that is no wider than the bound shows the end of the whole conversation, as if nothing
-- had ever been dropped.
pub history_window_exact :
    (s : Session) (added : List (Message × Time)) (limit : ℕ)
    → length s.conversation_history ≤ s.max_history_messages
    → limit ≤ s.max_history_messages
    → history_window (add_messages s added) limit
      ≡ last limit (s.conversation_history ++ messages added)
history_window_exact s added limit fits narrow =
    let whole = s.conversation_history ++ messages added in
    window-last (add_messages s added) limit
    ∙ rw (history-add_messages s added fits)
        (last-last_le limit s.max_history_messages whole narrow)
