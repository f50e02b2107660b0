-- ===== src/Cache/Links.antt =====
-- What the list operations of src/kes_cache.c do to the links of each entry of the heap, and that
-- they change nothing else of it.
use kanek_extents_storage.Common.{ℕ, Option, none, ◌≡◌, arith}
use kanek_extents_storage.Cache.{Entry, Cache, store, bucket_idx}
use kanek_extents_storage.Cache.Lists.{lru_add_head, lru_remove, hash_insert, hash_remove}
use kanek_extents_storage.Cache.Chain.{unlinked}
use kanek_extents_storage.Cache.Chain.Ends.{linked_next, linked_prev}

-- An entry without its links.
abbrev pub payload : Entry → Entry
payload e = record e { hash_next = none; hash_prev = none; list_next = none; list_prev = none }

module _ {D : Type 0} (c : Cache D) where
  abbrev pub list_next_of : ℕ → Option ℕ
  list_next_of q = (c.heap q).list_next

  abbrev pub list_prev_of : ℕ → Option ℕ
  list_prev_of q = (c.heap q).list_prev

  abbrev pub hash_next_of : ℕ → Option ℕ
  hash_next_of q = (c.heap q).hash_next

  abbrev pub hash_prev_of : ℕ → Option ℕ
  hash_prev_of q = (c.heap q).hash_prev

module _ {D : Type 0} (c : Cache D) (p q : ℕ) where
  pub list_next-lru_remove :
      list_next_of (lru_remove p c) q ≡ unlinked (list_next_of c) (list_prev_of c) p q
  unfolding lru_remove store
  list_next-lru_remove = ground arith

  pub list_prev-lru_remove :
      list_prev_of (lru_remove p c) q ≡ unlinked (list_prev_of c) (list_next_of c) p q
  unfolding lru_remove store
  list_prev-lru_remove = ground arith

  pub payload-lru_remove : payload ((lru_remove p c).heap q) ≡ payload (c.heap q)
  unfolding lru_remove store
  payload-lru_remove = ground arith

  pub list_next-lru_add_head :
      list_next_of (lru_add_head p c) q ≡ linked_next (list_next_of c) p c.mru_head q
  unfolding lru_add_head store
  list_next-lru_add_head = ground arith

  pub list_prev-lru_add_head :
      list_prev_of (lru_add_head p c) q ≡ linked_prev (list_prev_of c) p c.mru_head q
  unfolding lru_add_head store
  list_prev-lru_add_head = ground arith

  pub payload-lru_add_head : payload ((lru_add_head p c).heap q) ≡ payload (c.heap q)
  unfolding lru_add_head store
  payload-lru_add_head = ground arith

  pub hash_next-lru_remove : hash_next_of (lru_remove p c) q ≡ hash_next_of c q
  unfolding lru_remove store
  hash_next-lru_remove = ground arith

  pub hash_prev-lru_remove : hash_prev_of (lru_remove p c) q ≡ hash_prev_of c q
  unfolding lru_remove store
  hash_prev-lru_remove = ground arith

  pub hash_next-lru_add_head : hash_next_of (lru_add_head p c) q ≡ hash_next_of c q
  unfolding lru_add_head store
  hash_next-lru_add_head = ground arith

  pub hash_prev-lru_add_head : hash_prev_of (lru_add_head p c) q ≡ hash_prev_of c q
  unfolding lru_add_head store
  hash_prev-lru_add_head = ground arith

  pub hash_next-hash_remove :
      hash_next_of (hash_remove p c) q ≡ unlinked (hash_next_of c) (hash_prev_of c) p q
  unfolding store
  hash_next-hash_remove = ground arith

  pub hash_prev-hash_remove :
      hash_prev_of (hash_remove p c) q ≡ unlinked (hash_prev_of c) (hash_next_of c) p q
  unfolding store
  hash_prev-hash_remove = ground arith

  pub list_next-hash_remove : list_next_of (hash_remove p c) q ≡ list_next_of c q
  unfolding store
  list_next-hash_remove = ground arith

  pub list_prev-hash_remove : list_prev_of (hash_remove p c) q ≡ list_prev_of c q
  unfolding store
  list_prev-hash_remove = ground arith

  pub payload-hash_remove : payload ((hash_remove p c).heap q) ≡ payload (c.heap q)
  unfolding store
  payload-hash_remove = ground arith

  abbrev head_of : Option ℕ
  head_of = c.buckets (bucket_idx c (c.heap p).id)

  pub hash_next-hash_insert :
      hash_next_of (hash_insert p c) q ≡ linked_next (hash_next_of c) p head_of q
  unfolding store
  hash_next-hash_insert = ground arith

  pub hash_prev-hash_insert :
      hash_prev_of (hash_insert p c) q ≡ linked_prev (hash_prev_of c) p head_of q
  unfolding store
  hash_prev-hash_insert = ground arith

  pub list_next-hash_insert : list_next_of (hash_insert p c) q ≡ list_next_of c q
  unfolding store
  list_next-hash_insert = ground arith

  pub list_prev-hash_insert : list_prev_of (hash_insert p c) q ≡ list_prev_of c q
  unfolding store
  list_prev-hash_insert = ground arith

  pub payload-hash_insert : payload ((hash_insert p c).heap q) ≡ payload (c.heap q)
  unfolding store
  payload-hash_insert = ground arith
