-- ===== src/Services/Realtime/Delivery.antt =====
-- Closing the sockets of a device and broadcasting an event, with their loops over tokens.
use secure_messenger.Prelude.{
  ◌==◌, if◌then◌else◌, filter, any, All, delete_where, ℕ, ◌≡◌, refl, sym, ap, ◌∙◌, Bool, true,
  false, ◌&&◌, ◌||◌, not, List, [], ◌∷◌, map, arith,
}
use secure_messenger.Services.Realtime.{
  Connection, has_token, disconnect, disconnect_all, is_on_device, close_device, is_recipient,
  broadcast,
}
use secure_messenger.Services.Realtime.Dict.{IsDict}

-- The tokens of the connections that pass a test.
abbrev pub tokens_of : (Connection → Bool) → List Connection → List ℕ
tokens_of p cs = map (λ c. c.token) (filter p cs)

delete-twice :
    (p q : Connection → Bool) (cs : List Connection)
    → delete_where p (delete_where q cs) ≡ delete_where (λ c. q c || p c) cs
delete-twice p q [] = refl
delete-twice p q (c ∷ cs) = ground (arith, delete-twice p q cs)

delete-cong :
    (p q : Connection → Bool) (cs : List Connection)
    → All (λ c. p c ≡ q c) cs
    → delete_where p cs ≡ delete_where q cs
delete-cong p q [] h = refl
delete-cong p q (c ∷ cs) h = ground (arith, h.0, delete-cong p q cs h.1)

delete-none : (cs : List Connection) → delete_where (λ c. false) cs ≡ cs
delete-none [] = refl
delete-none (c ∷ cs) = ap (λ xs. c ∷ xs) (delete-none cs)

-- The loop over the tokens is one deletion.
disconnect_all-delete :
    (ts : List ℕ) (cs : List Connection)
    → disconnect_all ts cs ≡ delete_where (λ c. any (λ t. c.token == t) ts) cs
unfolding disconnect_all disconnect
disconnect_all-delete [] cs = sym (delete-none cs)
disconnect_all-delete (t ∷ ts) cs =
    disconnect_all-delete ts (delete_where (has_token t) cs) ∙ delete-twice _ (has_token t) cs

not_selected :
    (p : Connection → Bool) (token : ℕ) (cs : List Connection)
    → any (has_token token) cs ≡ false
    → any (λ t. token == t) (tokens_of p cs) ≡ false
not_selected p token [] h = refl
not_selected p token (c ∷ cs) h = ground (arith, h, not_selected p token cs)

-- The tokens of one more connection select no other one.
selected-cons :
    (p : Connection → Bool) (x : Connection) (ts : List ℕ) (cs : List Connection)
    → any (has_token x.token) cs ≡ false
    → All (λ c. any (λ t. c.token == t) ts ≡ p c) cs
    → All (λ c. (c.token == x.token || any (λ t. c.token == t) ts) ≡ p c) cs
selected-cons p x ts [] h v = tt
selected-cons p x ts (c ∷ cs) h v =
    (ground (arith, h, v.0), selected-cons p x ts cs (ground (arith, h)) v.1)

-- Of a dictionary, the tokens of the connections that pass a test select just these.
selected :
    (p : Connection → Bool) (cs : List Connection)
    → IsDict cs
    → All (λ c. any (λ t. c.token == t) (tokens_of p cs) ≡ p c) cs
selected p [] v = tt
selected p (c ∷ cs) v =
    (ground (arith, not_selected p c.token cs v.0), rest (p c) (selected p cs v.1))
  where
    rest :
        (b : Bool)
        → All (λ x. any (λ t. x.token == t) (tokens_of p cs) ≡ p x) cs
        → All
            (λ x.
              any
                (λ t. x.token == t)
                (map (λ y. y.token) (if b then c ∷ filter p cs else filter p cs))
              ≡ p x)
            cs
    rest true h = selected-cons p c (tokens_of p cs) cs v.0 h
    rest false h = h

disconnect_selected :
    (p : Connection → Bool) (cs : List Connection)
    → IsDict cs
    → disconnect_all (tokens_of p cs) cs ≡ delete_where p cs
disconnect_selected p cs v =
    disconnect_all-delete (tokens_of p cs) cs ∙ delete-cong _ p cs (selected p cs v)

-- Closing a device closes exactly its sockets, each of them, and leaves the other connections.
pub close_device-delete :
    (d : ℕ) (cs : List Connection)
    → IsDict cs
    → close_device d cs
      ≡ (map (λ c. c.websocket) (filter (is_on_device d) cs), delete_where (is_on_device d) cs)
unfolding close_device
close_device-delete d cs v =
    ap (λ left. (map (λ c. c.websocket) (filter (is_on_device d) cs), left))
      (disconnect_selected (is_on_device d) cs v)

filter-filter :
    (p q : Connection → Bool) (cs : List Connection)
    → filter p (filter q cs) ≡ filter (λ c. q c && p c) cs
filter-filter p q [] = refl
filter-filter p q (c ∷ cs) = ground (arith, filter-filter p q cs)

-- A broadcast reaches exactly the sockets of the users named that do not fail, in the order of the
-- dictionary, and removes exactly the connections of these users whose socket failed.
pub broadcast-delete :
    (fails : ℕ → Bool) (users : List ℕ) (cs : List Connection)
    → IsDict cs
    → broadcast fails users cs ≡ (
      map (λ c. c.websocket) (filter (λ c. is_recipient users c && not (fails c.websocket)) cs),
      delete_where (λ c. is_recipient users c && fails c.websocket) cs,
    )
unfolding broadcast
broadcast-delete fails users cs v =
    rw
      (
        filter-filter (λ c. not (fails c.websocket)) (is_recipient users) cs,
        filter-filter (λ c. fails c.websocket) (is_recipient users) cs,
        disconnect_selected (λ c. is_recipient users c && fails c.websocket) cs v,
      )
      refl
