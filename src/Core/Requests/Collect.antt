-- ===== src/Core/Requests/Collect.antt =====
-- accelerator/core/core.c: ta_fetch_txn_with_uuid on the request that was sent last does what `collect`
-- says.
use tangle_accelerator.Base.{
  ℕ, true, false, Option, Bytes, List, [], ◌∷◌, ◌++◌, map, All, bytes_eq, bytes_eq_iff,
  bytes_eq_refl, ◌≡◌, refl, sym, ap, subst, ◌∙◌, Bool-cases, inl, inr,
}
use tangle_accelerator.Exec.{done}
use tangle_accelerator.Env.{Env}
use tangle_accelerator.Env.Laws.{RedisLaws, LockLaws, tail}
use tangle_accelerator.Cache.Steps.{IsAlive}
use tangle_accelerator.Cache.Exist.{mem_bytes}
use tangle_accelerator.Core.Buffer.{TaCache, FetchRes, mam_bufreq_sent, ta_fetch_txn_with_uuid}
use tangle_accelerator.Core.Buffer.Fetch.{AreUuids, AreLists, Readable, ta_fetch_txn_with_uuid_sent}
use tangle_accelerator.Core.Requests.{
  Request, Requests, AreNames, Stands, Shows, Fresh, Unique, ids, collect,
}
use tangle_accelerator.Core.Requests.Frame.{ChangedAt, Stands-All, Fresh-middle, Unique-drops}

mem_bytes-Fresh : (u : Bytes) (xs : List Request) → Fresh u xs → mem_bytes u (ids xs) ≡ false
mem_bytes-Fresh u [] f = refl
mem_bytes-Fresh u (x ∷ xs) f = elim (Bool-cases (bytes_eq u x.id)) [
  | inl p ↦ absurd (f.0 ((bytes_eq_iff u x.id).0 p))
  | inr p ↦ rw p (mem_bytes-Fresh u xs f.1)
]

module _ {e : Env} (r : RedisLaws e) (alive : IsAlive r) (l : LockLaws e r) (txn_size : ℕ)
    {T : Type 0} (deserialize : Bytes → Option T) (stack : Bytes) (txn_of : Bytes → T)
    (cache : TaCache) (names : AreNames cache) (res : FetchRes T) where
  AreUuids-Stands :
      (w : e.World) (xs : List Request) → All (Stands r cache w) xs → AreUuids (ids xs)
  AreUuids-Stands w [] s = tt
  AreUuids-Stands w (x ∷ xs) s = ((s.0.id_text, s.0.id_length), AreUuids-Stands w xs s.1)

  -- While redis refuses no command: if the database shows an abstract state, the names of both lists hold no NUL and
  -- differ, and the read lock is to be had, then fetching the request that heads the sent ones, with
  -- a readable bundle that is not empty, answers with that bundle, and the database then shows the state with the
  -- request collected.
  pub ta_fetch_txn_with_uuid-collect :
      (w : e.World) (a : Requests) (x : Request) (more : List Request) (first : Bytes)
      (rest : List Bytes)
      → Shows r cache w a
      → (e.tryrdlock w).0 ≡ false
      → a.sent ≡ x ∷ more
      → x.stored ≡ first ∷ rest
      → All (Readable r alive txn_size deserialize stack txn_of) (first ∷ rest)
      → let (ret, w') = ta_fetch_txn_with_uuid e true txn_size deserialize stack cache x.id res w in
        (ret
          ≡ done (record res {
            status = mam_bufreq_sent;
            bundle = res.bundle ++ map txn_of (first ∷ rest);
          }))
        × Shows r cache w' (collect more a)
  unfolding collect
  ta_fetch_txn_with_uuid-collect w a x more first rest s taken hs hx readable =
      let all = subst (All (Stands r cache w)) hs s.sent_stand in
      let one = all.0 in
      let unique = subst (λ y. Unique (a.pending ++ y)) hs s.unique in
      let fresh = Fresh-middle x a.pending more unique in
      let sent_ids : r.items w cache.complete_list_name ≡ x.id ∷ ids more =
        s.sent_ids ∙ ap ids hs in
      let lists : AreLists r alive l txn_size deserialize stack txn_of cache x.id one.id_text
          names.complete_text names.buffer_text one.id_length one.not_complete res w =
        record {
          taken = taken;
          buffer_list = s.buffer_list;
          buffer_uuids =
              subst AreUuids (sym s.pending_ids) (AreUuids-Stands w a.pending s.pending_stand);
          complete_list = s.complete_list;
          complete_uuids = subst AreUuids (sym s.sent_ids) (AreUuids-Stands w a.sent s.sent_stand);
        } in
      let not_buffered : mem_bytes x.id (r.items w cache.buffer_list_name) ≡ false =
        ap (mem_bytes x.id) s.pending_ids ∙ mem_bytes-Fresh x.id a.pending fresh.0 in
      let listed : mem_bytes x.id (r.items w cache.complete_list_name) ≡ true =
        ap (mem_bytes x.id) sent_ids ∙ rw (bytes_eq_refl x.id) refl in
      let (ret, t) =
        ta_fetch_txn_with_uuid_sent r alive l txn_size deserialize stack txn_of cache x.id
          one.id_text names.complete_text names.buffer_text one.id_length one.not_complete res w
          first rest lists not_buffered listed one.no_string (one.bundle ∙ hx) readable in
      let w' = (ta_fetch_txn_with_uuid e true txn_size deserialize stack cache x.id res w).1 in
      let changed : ChangedAt r cache x.id w w' = record {
        items_kept = λ j hu hb hc. t.items_kept j hu hc;
        strings_kept = t.strings_kept;
      } in
      (
        ret,
        record {
          pending_ids =
              t.items_kept cache.buffer_list_name one.not_buffer (λ p. names.apart (sym p))
              ∙ s.pending_ids;
          sent_ids = t.head_gone ∙ ap tail sent_ids;
          buffer_list = t.strings_kept cache.buffer_list_name ∙ s.buffer_list;
          complete_list = t.strings_kept cache.complete_list_name ∙ s.complete_list;
          pending_stand = Stands-All r cache x.id w w' a.pending changed fresh.0 s.pending_stand;
          sent_stand = Stands-All r cache x.id w w' more changed fresh.1 all.1;
          unique = Unique-drops x a.pending more unique;
        },
      )
