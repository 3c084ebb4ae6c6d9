-- ===== src/Server.antt =====
-- server/src/main.rs: the documents that MongoDB stores, and the values of the GraphQL API that the server
-- makes of them. A function that panics returns no value.
pub mod Documents
pub mod TypeNames
pub mod Objects
pub mod Queries
use huracan.Prelude.{ℕ, Bool, Option, none, some, List}
use huracan.Prelude.Int.{ℤ}
use huracan.Prelude.Text.{Text}

infixl 5 ◌>>=◌
abbrev pub ◌>>=◌ {ℓ κ} : {A : Type ℓ} {B : Type κ} → Option A → (A → Option B) → Option B
none >>= f = none
some a >>= f = f a

-- The kinds of BSON values that the parser tells apart; `other_value` stands for the rest.
mutual
  pub data Bson : Type 0 where
    document : Fields → Bson
    int32 int64 : ℤ → Bson
    boolean : Bool → Bson
    string : Text → Bson
    array : Items → Bson
    null other_value : Bson

  -- The entries of a document, in their order.
  pub data Fields : Type 0 where
    end : Fields
    field : Text → Bson → Fields → Fields

  pub data Items : Type 0 where
    nil : Items
    item : Bson → Items → Items

mutual
  pub data SuiMoveValue : Type 0 where
    number : ℕ → SuiMoveValue
    truth : Bool → SuiMoveValue
    address : Text → SuiMoveValue
    vector : MoveValues → SuiMoveValue
    characters : Text → SuiMoveValue
    id : Text → SuiMoveValue
    struct : Text → MoveFields → SuiMoveValue
    nothing : SuiMoveValue

  pub data MoveValues : Type 0 where
    no_values : MoveValues
    value : SuiMoveValue → MoveValues → MoveValues

  -- A `BTreeMap`: its entries, in the order of the keys.
  pub data MoveFields : Type 0 where
    no_fields : MoveFields
    entry : Text → SuiMoveValue → MoveFields → MoveFields

pub data SuiOwnershipType : Type 0 where
  by_address by_object shared immutable : SuiOwnershipType

pub record SuiIndexedType : Type 0 where
  pub full : Text
  pub package_ : Text
  pub module_ : Text
  pub struct_ : Text
  pub generics : List Text

pub record SuiIndexedObject : Type 0 where
  pub id : Text
  pub version : ℕ
  pub digest : Text
  pub type_ : SuiIndexedType
  pub owner : Option Text
  pub ownership_type : SuiOwnershipType
  pub initial_shared_version : Option ℕ
  pub previous_transaction : Text
  pub storage_rebate : Option ℕ
  pub fields : MoveFields
  pub bcs : List ℕ

pub record SuiDynamicField : Type 0 where
  pub id : Text
  pub version : ℕ
  pub type_ : Text
  pub digest : Text
  pub previous_transaction : Text
  pub storage_rebate : Option ℕ
  pub bcs : List ℕ
  pub key_type : Text
  pub value_type : Text
  pub key : SuiMoveValue
  pub typed_key : SuiMoveValue
  pub value : SuiMoveValue
  pub typed_value : SuiMoveValue
