-- ===== src/Server/Sockets.antt =====
-- The registry of open websockets: internal/app/active_websockets.go. `C` is the type of the callbacks
-- that close a socket; the order of a Go map's iteration is that of the list.
use codex_balancer.Prelude.{
  ℕ, ◌+◌, ◌%◌, ◌^◌, ◌==◌, ◌≡◌, ◌≢◌, refl, if◌then◌else◌, Bool, true, false, ◌&&◌, Option, none,
  some, List, [], ◌∷◌, String, str_eq, eq_iff, arith, Bool-cases, inl, inr,
}
use codex_balancer.Prelude.Maps.{
  id_eq, lookup, erase, insert, lookup-erase_id, lookup-insert_id, lookup-erase_key,
  lookup-insert_key,
}

pub record ActiveWebSockets (C : Type 0) : Type 0 where
  pub next : ℕ
  pub by_account : List (String × List (ℕ × C))

module _ {C : Type 0} where
  -- The sockets of an account; a missing entry is a nil map.
  abbrev sockets_or : Option (List (ℕ × C)) → List (ℕ × C)
  sockets_or none = []
  sockets_or (some sockets) = sockets

  unfoldable pub sockets_of : ActiveWebSockets C → String → List (ℕ × C)
  sockets_of r account = sockets_or (lookup str_eq account r.by_account)

  unfoldable pub socket_at : ActiveWebSockets C → String → ℕ → Option C
  unfolding sockets_of
  socket_at r account id = lookup id_eq id (sockets_of r account)

  unfoldable pub put_socket :
      List (String × List (ℕ × C)) → String → ℕ → C → List (String × List (ℕ × C))
  put_socket by_account account id close =
      let sockets = sockets_or (lookup str_eq account by_account) in
      insert str_eq account (insert id_eq id close sockets) by_account

  unfoldable pub add : ActiveWebSockets C → String → C → ActiveWebSockets C × ℕ
  unfolding put_socket
  add r account close =
      let id = (r.next + 1) % 2 ^ 64 in
      (record { next = id; by_account = put_socket r.by_account account id close }, id)

  abbrev is_empty : List (ℕ × C) → Bool
  is_empty [] = true
  is_empty (x ∷ xs) = false

  -- `delete(accounts, id)`, and the account's entry with it if that was the last.
  unfoldable pub drop_socket :
      List (String × List (ℕ × C)) → String → ℕ → List (String × List (ℕ × C))
  drop_socket by_account account id =
      let left = erase id_eq id (sockets_or (lookup str_eq account by_account)) in
      if is_empty left
      then erase str_eq account by_account
      else insert str_eq account left by_account

  abbrev move_socket :
      ActiveWebSockets C → ℕ → String → String → Option C → ActiveWebSockets C × Bool
  move_socket r id from to none = (r, false)
  move_socket r id from to (some close) =
      (record r { by_account = put_socket (drop_socket r.by_account from id) to id close }, true)

  unfoldable pub move : ActiveWebSockets C → ℕ → String → String → ActiveWebSockets C × Bool
  unfolding put_socket drop_socket socket_at
  move r id from to =
      if id == 0
      then (r, false)
      else if str_eq from to
      then (r, true)
      else move_socket r id from to (socket_at r from id)

  unfoldable pub remove : ActiveWebSockets C → ℕ → String → ActiveWebSockets C
  unfolding drop_socket
  remove r id account =
      if id == 0 then r else record r { by_account = drop_socket r.by_account account id }

  callbacks : List (ℕ × C) → List C
  callbacks [] = []
  callbacks ((i, close) ∷ sockets) = close ∷ callbacks sockets

  -- `detachAccount`; `closeAccount` calls what it returns.
  unfoldable pub detach_account : ActiveWebSockets C → String → ActiveWebSockets C × List C
  unfolding callbacks sockets_of
  detach_account r account = (
    record r { by_account = erase str_eq account r.by_account },
    callbacks (sockets_of r account),
  )

  put_socket_lem :
      (m : List (String × List (ℕ × C))) (a b : String) (i j : ℕ) (close : C)
      → lookup id_eq j (sockets_or (lookup str_eq b (put_socket m a i close))) ≡ (
          if str_eq a b && (i == j)
          then some close
          else lookup id_eq j (sockets_or (lookup str_eq b m)))
  unfolding put_socket
  put_socket_lem m a b i j close =
      let law = lookup-insert_key b a (insert id_eq i close (sockets_or (lookup str_eq a m))) m in
      elim (Bool-cases (str_eq a b)) [
        | inl same ↦
            rw (law, same, (eq_iff a b).0 same)
              (lookup-insert_id j i close (sockets_or (lookup str_eq b m)))
        | inr other ↦ rw (law, other)
      ]

  drop_socket_lem :
      (m : List (String × List (ℕ × C))) (a b : String) (i j : ℕ)
      → lookup id_eq j (sockets_or (lookup str_eq b (drop_socket m a i)))
        ≡ (if str_eq a b && (i == j) then none else lookup id_eq j (sockets_or (lookup str_eq b m)))
  unfolding drop_socket lookup
  drop_socket_lem m a b i j =
      let left = erase id_eq i (sockets_or (lookup str_eq a m)) in
      let at = lookup-erase_id j i (sockets_or (lookup str_eq a m)) in by_left left refl at
    where
      by_left :
          (left : List (ℕ × C))
          → erase id_eq i (sockets_or (lookup str_eq a m)) ≡ left
          → lookup id_eq j (erase id_eq i (sockets_or (lookup str_eq a m)))
            ≡ (if id_eq i j then none else lookup id_eq j (sockets_or (lookup str_eq a m)))
          → lookup id_eq j (sockets_or (lookup str_eq b (drop_socket m a i))) ≡ (
              if str_eq a b && (i == j)
              then none
              else lookup id_eq j (sockets_or (lookup str_eq b m)))
      by_left [] e at =
          let law = lookup-erase_key b a m in
          elim (Bool-cases (str_eq a b)) [
            | inl same ↦ let p = (eq_iff a b).0 same in rw (e, law, same) (ground arith)
            | inr other ↦ rw (e, law, other)
          ]
      by_left (x ∷ xs) e at =
          let law = lookup-insert_key b a (x ∷ xs) m in
          elim (Bool-cases (str_eq a b)) [
            | inl same ↦ let p = (eq_iff a b).0 same in rw (e, law, same) (ground arith)
            | inr other ↦ rw (e, law, other)
          ]

  -- Moving a socket, with an id other than 0, that is registered under another account takes it
  -- from there and registers it, with its callback, under the new one; every other socket stays
  -- where it is.
  pub move_lem :
      (r : ActiveWebSockets C) (id : ℕ) (from to : String) (close : C)
      → id ≢ 0
      → from ≢ to
      → socket_at r from id ≡ some close
      → (b : String) (j : ℕ)
      → ((move r id from to).1 ≡ true)
        × (socket_at (move r id from to).0 b j ≡ (
            if j == id
            then if str_eq to b then some close else if str_eq from b then none else socket_at r b j
            else socket_at r b j))
  unfolding move socket_at sockets_of
  move_lem r id from to close nonzero apart found b j =
      let put = put_socket_lem (drop_socket r.by_account from id) to b id j close in
      let drop = drop_socket_lem r.by_account from b id j in
      let z : (id == 0) ≡ false = ground arith in
      let f : str_eq from to ≡ false = ground (arith, eq_iff from to) in
      rw (z, f, found) (ground arith)
