-- ===== src/EventLoop/Consistent.antt =====
-- eventloop.go: the map of connections, the connections in memory and their count agree.
use wsgnet.Prelude.{
  ℕ, suc, ◌-◌, ◌≤◌, ◌<◌, ◌%◌, ◌^◌, ◌≡◌, ◌≢◌, refl, sym, ap, ◌∙◌, subst, true, false, none, some, [],
  ◌∷◌, length, ◌==◌, if◌then◌else◌, arith, ℕ_discrete, ◌⊎◌, inl, inr,
}
use wsgnet.EventLoop.{Conn, ConnMap, Loop, lookup, delete, insert, set_conn, add_conn}

-- Each descriptor is in the map once.
abbrev pub IsKeyed : ConnMap → Type 0
IsKeyed [] = Unit
IsKeyed ((k, c) ∷ m) = (lookup m k ≡ none) × IsKeyed m

pub record IsConsistent {W App : Type 0} (st : Loop W App) : Type 0 where
  pub keyed : IsKeyed st.connections
  pub own_fd : (fd c : ℕ) → lookup st.connections fd ≡ some c → (st.conns c).fd ≡ fd
  pub live : (fd c : ℕ) → lookup st.connections fd ≡ some c → (st.conns c).opened ≡ true
  pub stream : (fd c : ℕ) → lookup st.connections fd ≡ some c → (st.conns c).is_udp ≡ false
  pub listed : (c : ℕ) → (st.conns c).opened ≡ true → lookup st.connections (st.conns c).fd ≡ some c
  pub counted : st.conn_count ≡ length st.connections % 2 ^ 32
  pub unused : (c : ℕ) → st.fresh ≤ c → (st.conns c).opened ≡ false

module _ (fd : ℕ) where
  pub lookup-delete : (m : ConnMap) → lookup (delete m fd) fd ≡ none
  lookup-delete [] = refl
  lookup-delete ((k, c) ∷ m) = ground (arith, lookup-delete m)

  pub lookup-delete_other : (m : ConnMap) (j : ℕ) → fd ≢ j → lookup (delete m fd) j ≡ lookup m j
  lookup-delete_other [] j ne = refl
  lookup-delete_other ((k, c) ∷ m) j ne = ground (arith, lookup-delete_other m j ne)

  delete-here : (k c : ℕ) (m : ConnMap) → k ≡ fd → delete ((k, c) ∷ m) fd ≡ delete m fd
  delete-here k c m e = ground arith

  delete-there : (k c : ℕ) (m : ConnMap) → k ≢ fd → delete ((k, c) ∷ m) fd ≡ (k, c) ∷ delete m fd
  delete-there k c m e = ground arith

  pub delete-IsKeyed : (m : ConnMap) → IsKeyed m → IsKeyed (delete m fd)
  delete-IsKeyed [] h = tt
  delete-IsKeyed ((k, c) ∷ m) (e, h) = elim (ℕ_discrete k fd) [
    | yes same ↦ subst IsKeyed (sym (delete-here k c m same)) (delete-IsKeyed m h)
    | no apart ↦
        subst IsKeyed (sym (delete-there k c m apart))
          ((lookup-delete_other m k (λ q. apart (sym q)) ∙ e), delete-IsKeyed m h)
  ]

  pub delete_absent : (m : ConnMap) → lookup m fd ≡ none → delete m fd ≡ m
  delete_absent [] e = refl
  delete_absent ((k, c) ∷ m) e = ground (arith, delete_absent m)

  pub length-delete :
      (m : ConnMap) {c : ℕ}
      → IsKeyed m
      → lookup m fd ≡ some c
      → suc (length (delete m fd)) ≡ length m
  length-delete [] h e = absurd cc
  length-delete ((k, d) ∷ m) {c} (f, h) e = elim (ℕ_discrete k fd) [
    | yes same ↦
        ap (λ n. suc (length n))
          (delete-here k d m same ∙ delete_absent m (subst (λ j. lookup m j ≡ none) same f))
    | no apart ↦
        ap (λ n. suc (length n)) (delete-there k d m apart)
        ∙ ap suc (length-delete m h (kept_there apart))
  ]
    where
      kept_there : k ≢ fd → lookup m fd ≡ some c
      kept_there apart = ground arith

some_eq : {a b : ℕ} → some a ≡ some b → a ≡ b
some_eq e = cc

-- The two differ at most in the buffers, the attachments, the maps of UDP sockets and the world.
pub record Same {W App : Type 0} (st st' : Loop W App) : Type 0 where
  pub connections : st'.connections ≡ st.connections
  pub conn_count : st'.conn_count ≡ st.conn_count
  pub fresh : st'.fresh ≡ st.fresh
  pub fd : (c : ℕ) → (st'.conns c).fd ≡ (st.conns c).fd
  pub opened : (c : ℕ) → (st'.conns c).opened ≡ (st.conns c).opened
  pub is_udp : (c : ℕ) → (st'.conns c).opened ≡ true → (st'.conns c).is_udp ≡ (st.conns c).is_udp

module _ {W App : Type 0} where
  pub Same-IsConsistent : {st st' : Loop W App} → Same st st' → IsConsistent st → IsConsistent st'
  Same-IsConsistent {st} {st'} r h = record {
    keyed = subst IsKeyed (sym r.connections) h.keyed;
    own_fd = λ fd c e. r.fd c ∙ h.own_fd fd c (found fd c e);
    live = λ fd c e. r.opened c ∙ h.live fd c (found fd c e);
    stream = λ fd c e.
        r.is_udp c (r.opened c ∙ h.live fd c (found fd c e)) ∙ h.stream fd c (found fd c e);
    listed = λ c e.
        ap (λ m. lookup m (st'.conns c).fd) r.connections
        ∙ ap (lookup st.connections) (r.fd c)
        ∙ h.listed c (sym (r.opened c) ∙ e);
    counted = r.conn_count ∙ h.counted ∙ ap (λ m. length m % 2 ^ 32) (sym r.connections);
    unused = λ c b. r.opened c ∙ h.unused c (omega (arith, r.fresh));
  }
    where
      found : (fd c : ℕ) → lookup st'.connections fd ≡ some c → lookup st.connections fd ≡ some c
      found fd c e = ap (λ m. lookup m fd) (sym r.connections) ∙ e

  -- A change of one connection that keeps what counts.
  pub set_conn-Same :
      (st : Loop W App) (c : ℕ) (k : Conn)
      → k.fd ≡ (st.conns c).fd
      → k.opened ≡ (st.conns c).opened
      → (k.opened ≡ true → k.is_udp ≡ (st.conns c).is_udp)
      → Same st (set_conn st c k)
  set_conn-Same st c k e f g = record {
    connections = refl;
    conn_count = refl;
    fresh = refl;
    fd = λ d. ground (arith, e);
    opened = λ d. ground (arith, f);
    is_udp = λ d q. ground (arith, g);
  }

  -- A connection that is closed leaves the map, and the count goes down.
  pub removed :
      (st : Loop W App) (c : ℕ) (k : Conn)
      → (st.conns c).opened ≡ true
      → k.opened ≡ false
      → IsConsistent st
      → IsConsistent (
          set_conn
            (add_conn
              (record st { connections = delete st.connections (st.conns c).fd })
              (2 ^ 32 - 1))
            c
            k)
  unfolding add_conn
  removed st c k o shut h = record {
    keyed = delete-IsKeyed fd st.connections h.keyed;
    own_fd =
        λ j d e. let (was, ne) = before j d e in ap (λ x. x.fd) (others d ne) ∙ h.own_fd j d was;
    live =
        λ j d e. let (was, ne) = before j d e in ap (λ x. x.opened) (others d ne) ∙ h.live j d was;
    stream = λ j d e.
        let (was, ne) = before j d e in ap (λ x. x.is_udp) (others d ne) ∙ h.stream j d was;
    listed = still_listed;
    counted = omega (arith, h.counted, length-delete fd st.connections h.keyed (h.listed c o));
    unused = λ d b. ground (arith, h.unused d, shut);
  }
    where
      fd : ℕ
      fd = (st.conns c).fd

      conns' : ℕ → Conn
      conns' d = if d == c then k else st.conns d

      others : (d : ℕ) → d ≢ c → conns' d ≡ st.conns d
      others d ne = ground arith

      before :
          (j d : ℕ)
          → lookup (delete st.connections fd) j ≡ some d
          → (lookup st.connections j ≡ some d) × (d ≢ c)
      before j d e = elim (ℕ_discrete fd j) [
        | yes same ↦ absurd (
            cc (
              subst (λ i. lookup (delete st.connections fd) i ≡ none) same
                  (lookup-delete fd st.connections),
              e,
            ))
        | no apart ↦
            let was : lookup st.connections j ≡ some d =
              sym (lookup-delete_other fd st.connections j apart) ∙ e in
            (was, λ q. apart (subst (λ x. (st.conns x).fd ≡ j) q (h.own_fd j d was)))
      ]

      still_listed :
          (d : ℕ)
          → (conns' d).opened ≡ true
          → lookup (delete st.connections fd) (conns' d).fd ≡ some d
      still_listed d e = elim (ℕ_discrete d c) [
        | yes same ↦ absurd (ground (arith, shut))
        | no apart ↦
            let was : lookup st.connections (st.conns d).fd ≡ some d =
              h.listed d (ap (λ x. x.opened) (sym (others d apart)) ∙ e) in
            ap (λ x. lookup (delete st.connections fd) x.fd) (others d apart)
            ∙ lookup-delete_other fd st.connections (st.conns d).fd
                (λ q. apart (some_eq (sym was ∙ ap (lookup st.connections) (sym q) ∙ h.listed c o)))
            ∙ was
      ]

  -- A connection that is opened enters the map under a descriptor that was not there.
  pub added :
      (st : Loop W App) (c : ℕ)
      → (st.conns c).is_udp ≡ false
      → lookup st.connections (st.conns c).fd ≡ none
      → c < st.fresh
      → IsConsistent st
      → IsConsistent (
          add_conn
            (set_conn
              (record st { connections = insert st.connections (st.conns c).fd c })
              c
              (record (st.conns c) { opened = true }))
            1)
  unfolding add_conn
  added st c tcp absent old h = record {
    keyed = (lookup-delete fd st.connections, delete-IsKeyed fd st.connections h.keyed);
    own_fd = λ j d e. elim (at_new j d e) [
      | inl (same, q) ↦ ap (λ x. x.fd) (here d q) ∙ same
      | inr (was, ne) ↦ ap (λ x. x.fd) (others d ne) ∙ h.own_fd j d was
    ];
    live = λ j d e. elim (at_new j d e) [
      | inl (same, q) ↦ ap (λ x. x.opened) (here d q)
      | inr (was, ne) ↦ ap (λ x. x.opened) (others d ne) ∙ h.live j d was
    ];
    stream = λ j d e. elim (at_new j d e) [
      | inl (same, q) ↦ ap (λ x. x.is_udp) (here d q) ∙ tcp
      | inr (was, ne) ↦ ap (λ x. x.is_udp) (others d ne) ∙ h.stream j d was
    ];
    listed = now_listed;
    counted = omega (arith, h.counted, ap length (delete_absent fd st.connections absent));
    unused = λ d b. ground (arith, h.unused d);
  }
    where
      fd : ℕ
      fd = (st.conns c).fd

      k : Conn
      k = record (st.conns c) { opened = true }

      conns' : ℕ → Conn
      conns' d = if d == c then k else st.conns d

      others : (d : ℕ) → d ≢ c → conns' d ≡ st.conns d
      others d ne = ground arith

      here : (d : ℕ) → d ≡ c → conns' d ≡ k
      here d q = ground arith

      at_new :
          (j d : ℕ)
          → lookup (insert st.connections fd c) j ≡ some d
          → ((fd ≡ j) × (d ≡ c)) ⊎ ((lookup st.connections j ≡ some d) × (d ≢ c))
      at_new j d e = elim (ℕ_discrete fd j) [
        | yes same ↦ inl (same, ground arith)
        | no apart ↦
            let was : lookup st.connections j ≡ some d =
              sym (lookup-delete_other fd st.connections j apart) ∙ ground arith in
            inr (was, λ q. apart (subst (λ x. (st.conns x).fd ≡ j) q (h.own_fd j d was)))
      ]

      now_listed :
          (d : ℕ)
          → (conns' d).opened ≡ true
          → lookup (insert st.connections fd c) (conns' d).fd ≡ some d
      now_listed d e = elim (ℕ_discrete d c) [
        | yes same ↦ ap (λ x. lookup (insert st.connections fd c) x.fd) (here d same) ∙ ground arith
        | no apart ↦
            let was : lookup st.connections (st.conns d).fd ≡ some d =
              h.listed d (ap (λ x. x.opened) (sym (others d apart)) ∙ e) in
            ap (λ x. lookup (insert st.connections fd c) x.fd) (others d apart)
            ∙ behind (st.conns d).fd d was
      ]
        where
          behind :
              (j d : ℕ)
              → lookup st.connections j ≡ some d
              → lookup (insert st.connections fd c) j ≡ some d
          behind j d was = ground (arith, absent, lookup-delete_other fd st.connections j)

  -- A new connection, at the next pointer.
  pub made_new :
      (st : Loop W App) (k : Conn)
      → k.opened ≡ false
      → IsConsistent st
      → IsConsistent (set_conn (record st { fresh = suc st.fresh }) st.fresh k)
  made_new st k shut h = record {
    keyed = h.keyed;
    own_fd = λ fd d e. ap (λ x. x.fd) (others fd d e) ∙ h.own_fd fd d e;
    live = λ fd d e. ap (λ x. x.opened) (others fd d e) ∙ h.live fd d e;
    stream = λ fd d e. ap (λ x. x.is_udp) (others fd d e) ∙ h.stream fd d e;
    listed = λ d e. ground (arith, shut, h.listed d);
    counted = h.counted;
    unused = λ d b. ground (arith, h.unused d);
  }
    where
      others :
          (fd d : ℕ)
          → lookup st.connections fd ≡ some d
          → (if d == st.fresh then k else st.conns d) ≡ st.conns d
      others fd d e = elim (ℕ_discrete d st.fresh) [
        | yes same ↦ absurd (cc (h.live fd d e, h.unused d (omega arith)))
        | no apart ↦ ground arith
      ]
