-- ===== src/Auth/Session/Lifecycle.antt =====
-- What a token is good for from its creation to its deletion.
use back_orbit.Base.{
  ◌+◌, true, false, none, some, List, [], ◌∷◌, ◌++◌, Bytes, ◌==◌, ltb, Result, ok, err, ◌≡◌, ◌≢◌,
  refl, arith, Option-cases, Bool-cases, inl, inr, ap, sym, ◌∙◌,
}
use back_orbit.Base.Text.{bytes_eq, bytes_beq_iff, bytes_beq-ne}
use back_orbit.Auth.Session.{
  Call, Row, Session, SessionStore, SessionError, session_not_found, session_expired, create,
  delete, delete_hash, find_hash, insert_row, judge, new_row, session_of, validate,
}

find_hash-append :
    (h : Bytes) (r : Row) (rs : List Row)
    → find_hash h rs ≡ none
    → r.token_hash ≡ h
    → find_hash h (rs ++ (r ∷ [])) ≡ some r
unfolding find_hash
find_hash-append h r [] n e = ground (arith, bytes_beq_iff r.token_hash h, e)
find_hash-append h r (x ∷ xs) n e =
    ground (arith, n, bytes_beq_iff x.token_hash h, find_hash-append h r xs, e)

find_hash-delete_hash : (h : Bytes) (rs : List Row) → find_hash h (delete_hash h rs) ≡ none
unfolding find_hash delete_hash
find_hash-delete_hash h [] = refl
find_hash-delete_hash h (r ∷ rs) = elim (Bool-cases (r.token_hash == h)) [
  | inl e ↦ rw e (find_hash-delete_hash h rs)
  | inr e ↦ rw (e, e) (find_hash-delete_hash h rs)
]

find_hash-delete_hash_other :
    (h g : Bytes) (rs : List Row) → h ≢ g → find_hash h (delete_hash g rs) ≡ find_hash h rs
unfolding find_hash delete_hash
find_hash-delete_hash_other h g [] ne = refl
find_hash-delete_hash_other h g (r ∷ rs) ne = ground (
  arith,
  ne,
  bytes_beq_iff r.token_hash h,
  bytes_beq_iff r.token_hash g,
  find_hash-delete_hash_other h g rs,
)

module _ (hash : Bytes → Bytes) where
  -- An insertion that succeeded found no row with the hash.
  insert_row-some :
      (c : Call) (r : Row) (s t : SessionStore)
      → insert_row hash c r s ≡ some t
      → (find_hash r.token_hash s.rows ≡ none) × (t ≡ record s { rows = s.rows ++ (r ∷ []) })
  unfolding insert_row
  insert_row-some c r s t h = ground arith

  -- What `Create` made, when it succeeded.
  pub create-made :
      (c : Call) (user ip agent : Bytes) (s : SessionStore) (made : Session)
      → (create hash c user ip agent s).0 ≡ ok made
      → let row = new_row hash c made.token user ip agent s.ttl in
        (made ≡ record (session_of row) { token = made.token })
        × (find_hash (hash made.token) s.rows ≡ none)
        × ((create hash c user ip agent s).1 ≡ record s { rows = s.rows ++ (row ∷ []) })
  unfolding create
  create-made c user ip agent s made h = elim (Option-cases c.new_token) [
    | inl e ↦ ground (arith, e)
    | inr (token, e) ↦
        elim (Option-cases (insert_row hash c (new_row hash c token user ip agent s.ttl) s)) [
          | inl n ↦ ground (arith, e, n)
          | inr (t, q) ↦
              let row = new_row hash c token user ip agent s.ttl in
              let same : record (session_of row) { token = token } ≡ made = ground (arith, e, q) in
              let (fresh, grown) = insert_row-some c row s t q in
              let moved : (create hash c user ip agent s).1 ≡ t = ground (arith, e, q) in
              rw (← same) (refl, fresh, moved ∙ grown)
        ]
  ]

  pub validate-found :
      (c : Call) (token : Bytes) (s : SessionStore) (r : Row)
      → token ≢ []
      → c.fails ≡ false
      → find_hash (hash token) s.rows ≡ some r
      → validate hash c token s ≡ judge hash c r s
  unfolding validate
  validate-found c token s r ne works e = ground (arith, bytes_beq-ne token [] ne)

  -- From its creation to its end a token names its session, and the store stays as it is; after the
  -- end it names none. Conditions: the token is not empty, and the query works.
  pub validate-create :
      (c c' : Call) (user ip agent : Bytes) (s : SessionStore) (made : Session)
      → (create hash c user ip agent s).0 ≡ ok made
      → made.token ≢ []
      → c'.fails ≡ false
      → let t = (create hash c user ip agent s).1 in
        (made.expires_at ≡ c.now + s.ttl)
        × (ltb made.expires_at c'.now ≡ false
            → validate hash c' made.token t ≡ (ok (record made { token = [] }), t))
        × (ltb made.expires_at c'.now ≡ true
            → (validate hash c' made.token t).0 ≡ err session_expired)
  unfolding judge
  validate-create c c' user ip agent s made h ne works =
      let (same, fresh, grown) = create-made c user ip agent s made h in
      let row = new_row hash c made.token user ip agent s.ttl in
      let t = (create hash c user ip agent s).1 in
      let at_end : find_hash (hash made.token) t.rows ≡ some row =
        rw grown (find_hash-append (hash made.token) row s.rows fresh refl) in
      let judged = validate-found c' made.token t row ne works at_end in
      let ends : made.expires_at ≡ row.expires_at = ap (λ (m : Session). m.expires_at) same in
      (
        ends,
        λ early.
            let good : ltb row.expires_at c'.now ≡ false = rw (← ends) early in
            judged
            ∙ rw (judge, good)
                (ap
                  (λ (m : Session).
                    let pair : Result SessionError Session × SessionStore =
                      (ok (record m { token = [] }), t) in
                    pair)
                  (sym same)),
        λ late.
            let bad : ltb row.expires_at c'.now ≡ true = rw (← ends) late in
            rw (judged, judge, bad) refl,
      )

  -- A deleted token names no session, and every token with another hash names what it named before.
  -- Condition: neither the deletion nor the query fails.
  pub validate-delete :
      (c c' : Call) (token other : Bytes) (s : SessionStore)
      → c.fails ≡ false
      → c'.fails ≡ false
      → hash other ≢ hash token
      → let t = (delete hash c token s).1 in
        ((validate hash c' token t).0 ≡ err session_not_found)
        × ((validate hash c' other t).0 ≡ (validate hash c' other s).0)
  unfolding validate delete judge
  validate-delete c c' token other s works works' ne = (
    ground (arith, find_hash-delete_hash (hash token) s.rows),
    ground (arith, find_hash-delete_hash_other (hash other) (hash token) s.rows),
  )
