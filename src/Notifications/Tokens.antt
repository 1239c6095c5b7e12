-- ===== src/Notifications/Tokens.antt =====
-- The uniqueness of tokens: a row for each token, and one for each user.
use drawback_backend.Prelude.{
  ℕ, String, Bool, true, false, List, [], ◌∷◌, ◌++◌, none, some, ◌≡◌, refl, subst, ◌≤◌, ◌==◌,
  ==_iff, ==_refl, eq_iff, str_eq, ◌&&◌, count, any, find_one, count-append_new, count-update_where,
  count-update_where-either, count-update_where-le, count_either, count_split, count-both,
  count_of_find_one, find_one-holds, count-remove_where, count-remove_where-le, count-zero,
  any_of_find_one-none, remove_where, update_where, Bool-cases, Option-cases, inl, inr, arith,
}
use drawback_backend.Schema.Enums.{PushProvider}
use drawback_backend.Schema.Entities.{PushToken}
use drawback_backend.World.{World, ◌>>=◌}
use drawback_backend.Notifications.{
  same_provider, has_token, belongs_to, delete_token, change_token, insert_token, Registration,
  taken_over, with_token, new_token, reuse, register_token,
}

pub record IsUnique (rows : List PushToken) : Type 0 where
  pub ids : (i : ℕ) → count (λ t. t.id == i) rows ≤ 1
  pub tokens : (p : PushProvider) (s : String) → count (has_token p s) rows ≤ 1
  pub users : (p : PushProvider) (u : ℕ) → count (belongs_to p u) rows ≤ 1

-- The provider of a row is the provider that is asked for.
one_provider : (p q : PushProvider) → p ≡ q
one_provider PushProvider.fcm PushProvider.fcm = refl

is_same : (p q : PushProvider) → same_provider p q ≡ true
is_same PushProvider.fcm PushProvider.fcm = refl

-- Rows of a clause of which there were none, after one row was rewritten.
rewritten_one :
    (p : PushToken → Bool) (f : PushToken → PushToken) (i : ℕ) (rows : List PushToken)
    → count (λ t. t.id == i) rows ≤ 1
    → count p rows ≡ 0
    → count p (update_where (λ t. t.id == i) f rows) ≤ 1
rewritten_one p f i rows one none_before =
    let new = count-update_where-either p (λ t. t.id == i) f rows in
    let sum = count_either p (λ t. t.id == i) rows in
    let split = count_split p (λ t. t.id == i) rows in
    omega (arith, new, sum, split, one, none_before)

module _ (now user : ℕ) (r : Registration) (rows : List PushToken) (h : IsUnique rows) where
  other_user :
      (p : PushProvider) (v : ℕ) (t : PushToken)
      → (user == v) ≡ false
      → belongs_to p v (taken_over now user r t) ≡ true
      → belongs_to p v t ≡ true
  other_user p v t other e = ground (arith, other, e)

  other_token :
      (p : PushProvider) (s : String) (t : PushToken)
      → str_eq r.token s ≡ false
      → has_token p s (with_token now r t) ≡ true
      → has_token p s t ≡ true
  other_token p s t other e = ground (arith, other, e)

  -- No row has the token, and one of the user's gets it.
  replaced :
      (m : PushToken)
      → find_one (has_token r.provider r.token) rows ≡ none
      → IsUnique (update_where (λ t. t.id == m.id) (with_token now r) rows)
  replaced m new = record {
    ids = λ i.
        let same =
          count-update_where (λ t. t.id == i) (λ t. t.id == m.id) (with_token now r) rows
            (λ t. refl) in
        let before = h.ids i in omega (arith, same, before);
    tokens = λ p s. elim (Bool-cases (str_eq r.token s)) [
      | inl e ↦
          subst
            (λ x.
              count (has_token p x) (update_where (λ t. t.id == m.id) (with_token now r) rows) ≤ 1)
            ((eq_iff r.token s).0 e)
            (subst
              (λ q.
                count (has_token q r.token)
                  (update_where (λ t. t.id == m.id) (with_token now r) rows)
                ≤ 1)
              (one_provider r.provider p)
              (rewritten_one (has_token r.provider r.token) (with_token now r) m.id rows
                (h.ids m.id) (count-zero _ rows (any_of_find_one-none _ rows new))))
      | inr other ↦
          let before = h.tokens p s in
          let fewer =
            count-update_where-le (has_token p s) (λ t. t.id == m.id) (with_token now r) rows
              (λ t e. other_token p s t other e) in
          omega (arith, before, fewer)
    ];
    users = λ p u.
        let same =
          count-update_where (belongs_to p u) (λ t. t.id == m.id) (with_token now r) rows
            (λ t. refl) in
        let before = h.users p u in omega (arith, same, before);
  }

  -- A row is taken over by a user who has no other one: `rows` may have lost one.
  took_over :
      (e : PushToken)
      → count
          (belongs_to r.provider user)
          (update_where (λ t. t.id == e.id) (taken_over now user r) rows)
        ≤ 1
      → IsUnique (update_where (λ t. t.id == e.id) (taken_over now user r) rows)
  took_over e own = record {
    ids = λ i.
        let same =
          count-update_where (λ t. t.id == i) (λ t. t.id == e.id) (taken_over now user r) rows
            (λ t. refl) in
        let before = h.ids i in omega (arith, same, before);
    tokens = λ p s.
        let same =
          count-update_where (has_token p s) (λ t. t.id == e.id) (taken_over now user r) rows
            (λ t. refl) in
        let before = h.tokens p s in omega (arith, same, before);
    users = λ p v. elim (Bool-cases (user == v)) [
      | inl same ↦
          subst
            (λ x.
              count (belongs_to p x) (update_where (λ t. t.id == e.id) (taken_over now user r) rows)
              ≤ 1)
            ((==_iff user v).0 same)
            (subst
              (λ q.
                count (belongs_to q user)
                  (update_where (λ t. t.id == e.id) (taken_over now user r) rows)
                ≤ 1)
              (one_provider r.provider p) own)
      | inr other ↦
          let before = h.users p v in
          let fewer =
            count-update_where-le (belongs_to p v) (λ t. t.id == e.id) (taken_over now user r) rows
              (λ t x. other_user p v t other x) in
          omega (arith, before, fewer)
    ];
  }

  -- The user's own row is the one with the token.
  own_row :
      (e m : PushToken)
      → find_one (belongs_to r.provider user) rows ≡ some m
      → (m.id == e.id) ≡ true
      → count
          (belongs_to r.provider user)
          (update_where (λ t. t.id == e.id) (taken_over now user r) rows)
        ≤ 1
  own_row e m mine same =
      let p = belongs_to r.provider user in
      let new = count-update_where-either p (λ t. t.id == e.id) (taken_over now user r) rows in
      let sum = count_either p (λ t. t.id == e.id) rows in
      let split = count_split p (λ t. t.id == e.id) rows in
      let overlap = count-both p (λ t. t.id == e.id) rows m mine same in
      let one_user = h.users r.provider user in
      let one_id = h.ids e.id in omega (arith, new, sum, split, overlap, one_user, one_id)

  -- Without the user's row the user has none.
  removed_own :
      (m : PushToken)
      → find_one (belongs_to r.provider user) rows ≡ some m
      → count (belongs_to r.provider user) (remove_where (λ t. t.id == m.id) rows) ≡ 0
  removed_own m mine =
      let p = belongs_to r.provider user in
      let left = count-remove_where (λ t. t.id == m.id) p rows in
      let split = count_split (λ t. t.id == m.id) p rows in
      let held = find_one-holds p rows m mine in
      let own = ==_refl m.id in
      let overlap =
        count_of_find_one p (λ t. (t.id == m.id) && p t) rows m mine (ground (arith, held, own)) in
      let one_user = h.users r.provider user in omega (arith, left, split, overlap, one_user)

removed-IsUnique :
    (i : ℕ) (rows : List PushToken) → IsUnique rows → IsUnique (remove_where (λ t. t.id == i) rows)
removed-IsUnique i rows h = record {
  ids = λ j.
      let before = h.ids j in
      let fewer = count-remove_where-le (λ t. t.id == i) (λ t. t.id == j) rows in
      omega (arith, before, fewer);
  tokens = λ p s.
      let before = h.tokens p s in
      let fewer = count-remove_where-le (λ t. t.id == i) (has_token p s) rows in
      omega (arith, before, fewer);
  users = λ p u.
      let before = h.users p u in
      let fewer = count-remove_where-le (λ t. t.id == i) (belongs_to p u) rows in
      omega (arith, before, fewer);
}

inserted-IsUnique :
    (id now user : ℕ) (r : Registration) (rows : List PushToken)
    → IsUnique rows
    → any (λ t. t.id == id) rows ≡ false
    → find_one (has_token r.provider r.token) rows ≡ none
    → find_one (belongs_to r.provider user) rows ≡ none
    → IsUnique (rows ++ new_token id now user r ∷ [])
inserted-IsUnique id now user r rows h fresh new alone = record {
  ids = λ i.
      count-append_new _ rows (new_token id now user r) (h.ids i)
        λ e. subst (λ x. any (λ t. t.id == x) rows ≡ false) ((==_iff id i).0 e) fresh;
  tokens = λ p s. count-append_new _ rows (new_token id now user r) (h.tokens p s) λ e.
      subst (λ x. any (has_token p x) rows ≡ false) ((eq_iff r.token s).0 (ground (arith, e)))
        (subst (λ q. any (has_token q r.token) rows ≡ false) (one_provider r.provider p)
          (any_of_find_one-none _ rows new));
  users = λ p u. count-append_new _ rows (new_token id now user r) (h.users p u) λ e.
      subst (λ x. any (belongs_to p x) rows ≡ false) ((==_iff user u).0 (ground (arith, e)))
        (subst (λ q. any (belongs_to q user) rows ≡ false) (one_provider r.provider p)
          (any_of_find_one-none _ rows alone));
}

module _ (now user : ℕ) (r : Registration) (w : World) (h : IsUnique w.db.push_tokens) where
  reuse-IsUnique :
      (e : PushToken)
      → IsUnique
          (reuse now user r
            (find_one (belongs_to r.provider user) w.db.push_tokens)
            e
            w).1.db.push_tokens
  unfolding reuse delete_token change_token ◌>>=◌
  reuse-IsUnique e = elim (Option-cases (find_one (belongs_to r.provider user) w.db.push_tokens)) [
    | inl alone ↦
        rw (alone, ◌>>=◌)
          (took_over now user r w.db.push_tokens h e (
            rewritten_one (belongs_to r.provider user) (taken_over now user r) e.id w.db.push_tokens
              (h.ids e.id)
              (count-zero _ w.db.push_tokens (any_of_find_one-none _ w.db.push_tokens alone))))
    | inr (m, mine) ↦ elim (Bool-cases (m.id == e.id)) [
      | inl same ↦
          rw (mine, same, ◌>>=◌)
            (took_over now user r w.db.push_tokens h e
              (own_row now user r w.db.push_tokens h e m mine same))
      | inr other ↦
          let rest = remove_where (λ t. t.id == m.id) w.db.push_tokens in
          let kept = removed-IsUnique m.id w.db.push_tokens h in
          rw (mine, other, ◌>>=◌)
            (took_over now user r rest kept e (
              rewritten_one (belongs_to r.provider user) (taken_over now user r) e.id rest
                (kept.ids e.id) (removed_own now user r w.db.push_tokens h m mine)))
    ]
  ]

-- A registration of a device's token, under an id that no row has, leaves at most one row with any
-- id, at most one with any token and at most one of any user, if that was so before.
pub register_token-IsUnique :
    (id now user : ℕ) (r : Registration) (w : World)
    → IsUnique w.db.push_tokens
    → any (λ t. t.id == id) w.db.push_tokens ≡ false
    → IsUnique (register_token id now user r w).1.db.push_tokens
unfolding register_token insert_token change_token ◌>>=◌
register_token-IsUnique id now user r w h fresh =
    elim (Option-cases (find_one (has_token r.provider r.token) w.db.push_tokens)) [
      | inr (e, found) ↦ rw (found, ◌>>=◌) (reuse-IsUnique now user r w h e)
      | inl new ↦ elim (Option-cases (find_one (belongs_to r.provider user) w.db.push_tokens)) [
        | inr (m, mine) ↦ rw (new, mine, ◌>>=◌) (replaced now user r w.db.push_tokens h m new)
        | inl alone ↦
            rw (new, alone, ◌>>=◌)
              (inserted-IsUnique id now user r w.db.push_tokens h fresh new alone)
      ]
    ]
