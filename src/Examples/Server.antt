-- ===== src/Examples/Server.antt =====
-- An API server that keeps objects by their names, and reads without a cache.
use kahuna_k8s_operator.Common.{
  ◌≡◌, ◌≢◌, refl, ap, String, true, Option, none, some, inr, string_dec, is_some, arith,
}
use kahuna_k8s_operator.Common.Dict.{Dict, lookup, insert, erase, lookup-insert, lookup-erase}
use kahuna_k8s_operator.ApiServer.{
  Reply, found, missing, Created, created, already_there, deleted, Objects,
}

module _ {A : Type 0} where
  abbrev pub read : Option A → Reply A
  read none = missing
  read (some a) = found a

  abbrev pub make : String → A → Dict String A → Option A → Created × Dict String A
  make n a s none = (created, insert string_dec n a s)
  make n a s (some b) = (already_there, s)

  pub make_keeps :
      (s : Dict String A) (n m : String) (a b : A) (o : Option A)
      → lookup string_dec n s ≡ o
      → lookup string_dec m s ≡ some b
      → lookup string_dec m (make n a s o).1 ≡ some b
  make_keeps s n m a b none e there = elim (string_dec n m) [
    | yes same ↦ ground (arith, ap (λ k. lookup string_dec k s) same)
    | no other ↦ ground (arith, lookup-insert string_dec m n a s)
  ]
  make_keeps s n m a b (some c) e there = there

  pub make_makes :
      (s : Dict String A) (n : String) (a : A) (o : Option A)
      → lookup string_dec n s ≡ o
      → is_some (lookup string_dec n (make n a s o).1) ≡ true
  make_makes s n a none e = ground (arith, lookup-insert string_dec n n a s)
  make_makes s n a (some c) e = rw e refl

  pub erase_keeps :
      (s : Dict String A) (n m : String)
      → n ≢ m
      → lookup string_dec m (erase string_dec n s) ≡ lookup string_dec m s
  erase_keeps s n m other = ground (arith, lookup-erase string_dec m n s)

  pub read_held : (a b : A) (o : Option A) → read o ≡ found a → o ≡ some b → a ≡ b
  read_held a b none e there = cc
  read_held a b (some c) e there = ground arith

  abbrev pub store : Objects A
  store = record {
    State = Dict String A;
    version = λ a. "";
    held = λ s n. lookup string_dec n s;
    get = λ s n. read (lookup string_dec n s);
    create = λ n a s. make n a s (lookup string_dec n s);
    delete = λ n a s. (deleted, erase string_dec n s);
    create_keeps = λ s n m a b there. make_keeps s n m a b (lookup string_dec n s) refl there;
    create_makes = λ s n a ok. make_makes s n a (lookup string_dec n s) refl;
    delete_other = λ s n m a other. erase_keeps s n m other;
    delete_pinned = λ s n a b there. inr refl;
    read_current = λ s n a b got there same. read_held a b (lookup string_dec n s) got there;
  }
