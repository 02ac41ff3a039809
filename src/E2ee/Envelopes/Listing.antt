-- ===== src/E2ee/Envelopes/Listing.antt =====
-- GET /e2ee/chats/{chat_id}/envelopes: what a page holds and what it leaves for the next.
use secure_messenger.Prelude.{
  ltb, length, take, drop, filter, count, All, All-mono, ℕ, zero, suc, ◌+◌, ◌≤◌, ◌≡◌, refl, sym, ap,
  ◌∙◌, ◌⊎◌, inl, inr, Bool, true, ◌&&◌, List, [], ◌∷◌, arith,
}
use secure_messenger.Model.Mls.{MlsEnvelope}
use secure_messenger.E2ee.Envelopes.{
  purge_expired_envelopes, insert_by_id, order_by_id, is_visible_to, page_size, visible_after,
  list_mls_envelopes,
}
use secure_messenger.Model.{Db}
use secure_messenger.Model.Accounts.{Device}
use secure_messenger.Http.{Result, ok, err, handle}
use secure_messenger.Http.Ends.{
  Ends-gets, Ends-or_raise, Ends-modify, Ends-commit, Ends-gets_last, handle_by,
}

-- Ids from `low` on, in ascending order.
abbrev pub SortedFrom : ℕ → List MlsEnvelope → Type 0
SortedFrom low [] = Unit
SortedFrom low (e ∷ es) = (low ≤ e.id) × SortedFrom e.id es

insert_by_id-Sorted :
    (low : ℕ) (e : MlsEnvelope) (es : List MlsEnvelope)
    → low ≤ e.id
    → SortedFrom low es
    → SortedFrom low (insert_by_id e es)
unfolding insert_by_id
insert_by_id-Sorted low e [] h s = (h, tt)
insert_by_id-Sorted low e (x ∷ xs) h s = ground (arith, insert_by_id-Sorted x.id e xs)

order_by_id-Sorted :
    (low : ℕ) (es : List MlsEnvelope) → All (λ e. low ≤ e.id) es → SortedFrom low (order_by_id es)
unfolding order_by_id
order_by_id-Sorted low [] h = tt
order_by_id-Sorted low (e ∷ es) h =
    insert_by_id-Sorted low e (order_by_id es) h.0 (order_by_id-Sorted low es h.1)

count-insert_by_id :
    (p : MlsEnvelope → Bool) (e : MlsEnvelope) (es : List MlsEnvelope)
    → count p (insert_by_id e es) ≡ count p (e ∷ es)
unfolding insert_by_id
count-insert_by_id p e [] = refl
count-insert_by_id p e (x ∷ xs) = ground (arith, count-insert_by_id p e xs)

count-order_by_id :
    (p : MlsEnvelope → Bool) (es : List MlsEnvelope) → count p (order_by_id es) ≡ count p es
unfolding order_by_id
count-order_by_id p [] = refl
count-order_by_id p (e ∷ es) =
    ground (arith, count-insert_by_id p e (order_by_id es), count-order_by_id p es)

sorted_take : (low n : ℕ) (es : List MlsEnvelope) → SortedFrom low es → SortedFrom low (take n es)
sorted_take low zero es h = tt
sorted_take low (suc n) [] h = tt
sorted_take low (suc n) (e ∷ es) h = (h.0, sorted_take e.id n es h.1)

-- What `filter` keeps passes the test.
All-filtered :
    (p : MlsEnvelope → Bool) (es : List MlsEnvelope) → All (λ e. p e ≡ true) (filter p es)
All-filtered p [] = tt
All-filtered p (e ∷ es) = ground (arith, All-filtered p es)

-- The part of a page after `n` rows, and the rows before: nothing is lost between them.
count-take :
    (p : MlsEnvelope → Bool) (n : ℕ) (es : List MlsEnvelope)
    → count p es ≡ count p (take n es) + count p (drop n es)
count-take p zero es = omega arith
count-take p (suc n) [] = refl
count-take p (suc n) (e ∷ es) = ground (arith, count-take p n es)

-- The highest id of a page, from `low` where it is empty.
abbrev pub last_id : ℕ → List MlsEnvelope → ℕ
last_id low [] = low
last_id low (e ∷ es) = last_id e.id es

-- In ascending order nothing that is left lies at or below the last id of the page.
left_above :
    (low n : ℕ) (es : List MlsEnvelope)
    → SortedFrom low es
    → SortedFrom (last_id low (take n es)) (drop n es)
left_above low zero es h = h
left_above low (suc n) [] h = tt
left_above low (suc n) (e ∷ es) h = left_above e.id n es h.1

length-take-drop :
    (n : ℕ) (es : List MlsEnvelope)
    → length (take n es) ≤ n × (drop n es ≡ [] ⊎ length (take n es) ≡ n)
length-take-drop zero es = (omega arith, inr refl)
length-take-drop (suc n) [] = (omega arith, inl refl)
length-take-drop (suc n) (e ∷ es) =
    let (short, ends) = length-take-drop n es in (omega (arith, short), one_more ends)
  where
    one_more : {rest : List MlsEnvelope} {k : ℕ} → rest ≡ [] ⊎ k ≡ n → rest ≡ [] ⊎ suc k ≡ suc n
    one_more (inl none_left) = inl none_left
    one_more (inr is_full) = inr (ap suc is_full)

-- The page that a device gets after the id `after`, out of the tables `db`.
pub record IsPage (c d after : ℕ) (db : Db) (page : List MlsEnvelope) : Type 0 where
  -- what the next pages hold
  pub rest : List MlsEnvelope
  -- together, exactly the envelopes that the device may see and has not seen
  pub whole :
      (p : MlsEnvelope → Bool)
      → count p page + count p rest
        ≡ count p (filter (λ e. is_visible_to c d e && ltb after e.id) db.envelopes)
  pub ascending : SortedFrom (suc after) page
  -- to go on after the last id of the page skips nothing below it
  pub later : SortedFrom (last_id (suc after) page) rest
  pub short : length page ≤ page_size
  pub is_last_or_full : rest ≡ [] ⊎ length page ≡ page_size

visible_after-IsPage :
    (c d after : ℕ) (db : Db) → IsPage c d after db (take page_size (visible_after c d after db))
unfolding visible_after
visible_after-IsPage c d after db = record {
  rest = drop page_size rows;
  whole = λ p. sym (count-take p page_size rows) ∙ count-order_by_id p kept;
  ascending = sorted_take (suc after) page_size rows sorted;
  later = left_above (suc after) page_size rows sorted;
  short = (length-take-drop page_size rows).0;
  is_last_or_full = (length-take-drop page_size rows).1;
}
  where
    kept : List MlsEnvelope
    kept = filter (λ e. is_visible_to c d e && ltb after e.id) db.envelopes

    rows : List MlsEnvelope
    rows = order_by_id kept

    sorted : SortedFrom (suc after) rows
    sorted =
        order_by_id-Sorted (suc after) kept
          (All-mono _ _ kept (λ e h. ground arith) (All-filtered _ db.envelopes))

-- The answer of a listing, and the tables it leaves.
abbrev pub ListsPage : ℕ → ℕ → ℕ → ℕ → Db → Result (List MlsEnvelope) → Db → Type 0
ListsPage c d after now db (ok page) left =
    (left ≡ purge_expired_envelopes c now db) × IsPage c d after left page
ListsPage c d after now db (err e) left = left ≡ db

-- GET /e2ee/chats/{chat_id}/envelopes deletes the chat's envelopes of more than 30 days and answers
-- with at most 500 envelopes in ascending order of id, all of them visible to the device and after
-- `after`; they and the rest, which lies at or after the last id answered and is empty unless the
-- page is full, are exactly the visible envelopes after `after`. A refused request changes nothing.
pub list_mls_envelopes-IsPage :
    (c after : ℕ) (device : Device) (now : ℕ) (db : Db)
    → let (r, left) = handle (list_mls_envelopes c after device now) db in
      ListsPage c device.id after now db r left
unfolding list_mls_envelopes
list_mls_envelopes-IsPage c after device now db =
    handle_by (ListsPage c device.id after now db) _ db (
      Ends-gets _ _ (
        Ends-or_raise _ _ _ (λ _. refl)
          λ m _.
            Ends-modify _ _
              (Ends-commit _ (Ends-gets_last _ (refl, visible_after-IsPage c device.id after _)))))
