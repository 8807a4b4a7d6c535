-- ===== src/Base/Database.antt =====
-- A key-value database (the package `level`): its state and what it is asked. It is a library, so
-- it is a parameter, and `DbLaws` says what is relied on.
use chainmail_protocol.Base.Dict.{In}
use chainmail_protocol.Base.Strings.{Text, text_discrete}
use mathlib.Core.List.{List}
use mathlib.Core.Logic.{◌↔◌, ◌≢◌, ite, if_pos, if_neg}
use mathlib.Core.Option.{Option, none, some}
use mathlib.Core.Path.{◌≡◌, refl, ap, sym, ◌∙◌}

pub record Db (V : Type 0) : Type 1 where
  pub Store : Type 0
  pub get : Text → Store → Option V
  pub put : Text → V → Store → Store
  pub del : Text → Store → Store
  pub iterator : Store → List (Text × V)

-- It reads what was written last, and iterates over what can be read.
pub record DbLaws {V : Type 0} (db : Db V) : Type 0 where
  pub get-put :
      (j k : Text) (v : V) (s : db.Store)
      → db.get j (db.put k v s) ≡ ite (text_discrete j k) (some v) (db.get j s)
  pub get-del :
      (j k : Text) (s : db.Store)
      → db.get j (db.del k s) ≡ ite (text_discrete j k) none (db.get j s)
  pub In-iterator :
      (k : Text) (v : V) (s : db.Store) → In (k, v) (db.iterator s) ↔ (db.get k s ≡ some v)

pub none-ne-some : {A : Type 0} (a : A) → none ≢ some a
none-ne-some a h = cc

pub some-injective : {A : Type 0} {a b : A} → some a ≡ some b → a ≡ b
some-injective h = cc

module _ {V : Type 0} {db : Db V} (laws : DbLaws db) where
  pub get-put_self : (k : Text) (v : V) (s : db.Store) → db.get k (db.put k v s) ≡ some v
  get-put_self k v s = laws.get-put k k v s ∙ if_pos (text_discrete k k) refl (some v) (db.get k s)

  pub get-put_ne :
      (j k : Text) (v : V) (s : db.Store) → j ≢ k → db.get j (db.put k v s) ≡ db.get j s
  get-put_ne j k v s d = laws.get-put j k v s ∙ if_neg (text_discrete j k) d (some v) (db.get j s)

  pub get-del_self : (k : Text) (s : db.Store) → db.get k (db.del k s) ≡ none
  get-del_self k s = laws.get-del k k s ∙ if_pos (text_discrete k k) refl none (db.get k s)

  pub get-del_ne : (j k : Text) (s : db.Store) → j ≢ k → db.get j (db.del k s) ≡ db.get j s
  get-del_ne j k s d = laws.get-del j k s ∙ if_neg (text_discrete j k) d none (db.get j s)

  -- What is left after a deletion was there before.
  pub get-del_of :
      (j k : Text) (v : V) (s : db.Store) → db.get j (db.del k s) ≡ some v → db.get j s ≡ some v
  get-del_of j k v s h = elim (text_discrete j k) [
    | yes e ↦
        absurd
          (none-ne-some v (sym (get-del_self k s) ∙ ap (λ i. db.get i (db.del k s)) (sym e) ∙ h))
    | no d ↦ sym (get-del_ne j k s d) ∙ h
  ]
