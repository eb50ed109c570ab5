-- ===== src/Json/Syntax.antt =====
-- include/json.h: the classes below `jsonComponent_t`, a constructor each. `F` stands for
-- `floatL_t`. A `vector` of components is an `Items`, and a `map` from strings to components is a
-- `Fields`, the entries in the order of the map's iterators.
use instant_send.Prelude.{Bool, Bytes}
use instant_send.Word.{Int64}

mutual
  pub data Json (F : Type 0) : Type 0 where
    int : Int64 → Json F
    float : F → Json F
    str : Bytes → Json F
    bool : Bool → Json F
    null : Json F
    arr : Items F → Json F
    obj : Fields F → Json F

  pub data Items (F : Type 0) : Type 0 where
    no_items : Items F
    item : Json F → Items F → Items F

  pub data Fields (F : Type 0) : Type 0 where
    no_fields : Fields F
    field : Bytes → Json F → Fields F → Fields F
