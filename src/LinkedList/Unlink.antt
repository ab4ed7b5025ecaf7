-- ===== src/LinkedList/Unlink.antt =====
-- The stores of `list_remove` of list/list.c that take a node out.
use leipocode.Base.{◌≡◌, ◌≢◌, true, false, some, arith, ◌==◌}
use leipocode.LinkedList.Memory.{Ptr, null, node, Store, ok, update, load, set_next, set_prev}
use leipocode.LinkedList.{unlink}

-- What `unlink` makes of the store, for each place in which the node stands.
module _ (s : Store) (p d : Ptr) (live : p ≢ null) where
  pub unlink-first :
      (q e next : Ptr)
      → (p == s.head) ≡ true
      → q ≢ null
      → s.cells p ≡ some (node d q null)
      → s.cells q ≡ some (node e next p)
      → unlink p s
        ≡ ok tt (record s { head = q; cells = update s.cells q (some (node e next null)) })
  unfolding unlink load set_prev set_next update
  unlink-first q e next h live' at at' = ground arith

  pub unlink-last :
      (q e back : Ptr)
      → (p == s.head) ≡ false
      → (p == s.tail) ≡ true
      → q ≢ null
      → s.cells p ≡ some (node d null q)
      → s.cells q ≡ some (node e p back)
      → unlink p s
        ≡ ok tt (record s { tail = q; cells = update s.cells q (some (node e null back)) })
  unfolding unlink load set_prev set_next update
  unlink-last q e back h t live' at at' = ground arith

  pub unlink-between :
      (q e back r f next : Ptr)
      → (p == s.head) ≡ false
      → (p == s.tail) ≡ false
      → q ≢ null
      → r ≢ null
      → p ≢ r
      → q ≢ r
      → s.cells p ≡ some (node d r q)
      → s.cells q ≡ some (node e p back)
      → s.cells r ≡ some (node f next p)
      → unlink p s
        ≡ ok tt (record s {
          cells = update (update s.cells r (some (node f next q))) q (some (node e r back));
        })
  unfolding unlink load set_prev set_next update
  unlink-between q e back r f next h t live' live'' apart apart' at at' at'' = ground arith
