-- ===== src/Command/Durable/Lists.antt =====
-- The commands of commander/list_cmd: the agreement of the log and the memory.
use fleare.Prelude.{ℕ, zero, suc, Option, none, some, List, [], ◌∷◌}
use fleare.Prelude.Int.{ℤ, pos, negsuc}
use fleare.Prelude.Bytes.{Bytes}
use fleare.Store.{Object}
use fleare.Exec.Keeps.{Keeps, keeps_rules}
use fleare.Json.{Library, Value, null}
use fleare.Shard.{Env, ShardManager}
use fleare.Shard.Durable.{Durable, Accepting}
use fleare.Command.Lists.{
  list_set, push_onto, list_push, iset_at, iset_target, iset_valid, list_iset, or_invalid,
  or_out_of_range, element_at, whole_list, list_element, list_get, list_length, list_len, pop_more,
  pop_elements, pop_object, list_pop, unsnoc, decoded,
}
use fleare.Command.Durable.{mem_get-Durable, save-Durable, remove-Durable}

module _ (env : Env) (lib : Library) where
  module _ {P : ShardManager → Type 0} where
    or_invalid-Keeps :
        (o : Option (Option (List (Value lib.Float)))) → Keeps P (or_invalid env lib o)
    or_invalid-Keeps none = search keeps_rules
    or_invalid-Keeps (some vs) = search keeps_rules

    or_out_of_range-Keeps : (o : Option (Value lib.Float)) → Keeps P (or_out_of_range env lib o)
    or_out_of_range-Keeps none = search keeps_rules
    or_out_of_range-Keeps (some v) = search keeps_rules

    element_at-Keeps :
        (vs : List (Value lib.Float)) (i : Option ℤ) → Keeps P (element_at env lib vs i)
    element_at-Keeps vs none = search keeps_rules
    element_at-Keeps vs (some (pos i)) = search or_out_of_range-Keeps
    element_at-Keeps vs (some (negsuc i)) = search keeps_rules

    whole_list-Keeps : (o : Option Object) → Keeps P (whole_list env lib o)
    whole_list-Keeps none = search keeps_rules
    whole_list-Keeps (some obj) = search (keeps_rules, or_invalid-Keeps)

    list_element-Keeps :
        (index : Bytes) (o : Option Object) → Keeps P (list_element env lib index o)
    list_element-Keeps index none = search keeps_rules
    list_element-Keeps index (some obj) = search (keeps_rules, or_invalid-Keeps, element_at-Keeps)

    list_length-Keeps : (o : Option Object) → Keeps P (list_length env lib o)
    list_length-Keeps none = search keeps_rules
    list_length-Keeps (some obj) = search (keeps_rules, or_invalid-Keeps)

    iset_target-Keeps :
        (index : ℕ) (v : Value lib.Float) (o : Option Object)
        → Keeps P (iset_target env lib index v o)
    iset_target-Keeps zero v none = search keeps_rules
    iset_target-Keeps (suc i) v none = search keeps_rules
    iset_target-Keeps index v (some obj) = iset_at-Keeps index v (decoded env lib obj)
      where
        iset_at-Keeps :
            (index : ℕ) (v : Value lib.Float) (o : Option (Option (List (Value lib.Float))))
            → Keeps P (iset_at env lib index v o)
        iset_at-Keeps index v none = search keeps_rules
        iset_at-Keeps index v (some vs) = search keeps_rules

  module _ (acc : Accepting env) where
    pub list_set-Durable : (args : List Bytes) → Keeps (Durable env) (list_set env lib args)
    unfolding list_set
    list_set-Durable [] = search keeps_rules
    list_set-Durable (key ∷ []) = search keeps_rules
    list_set-Durable (key ∷ arg ∷ args) = search (keeps_rules, save-Durable)

    push_onto-Durable :
        (key : Bytes) (args : List Bytes) (o : Option (Option (List (Value lib.Float))))
        → Keeps (Durable env) (push_onto env lib key args o)
    push_onto-Durable key args none = search keeps_rules
    push_onto-Durable key args (some vs) = search (keeps_rules, save-Durable)

    pub list_push-Durable : (args : List Bytes) → Keeps (Durable env) (list_push env lib args)
    unfolding list_push
    list_push-Durable [] = search keeps_rules
    list_push-Durable (key ∷ args) = search (keeps_rules, mem_get-Durable, push_onto-Durable)

    iset_valid-Durable :
        (key : Bytes) (i : Option ℤ) (element : Bytes)
        → Keeps (Durable env) (iset_valid env lib key i element)
    iset_valid-Durable key none element = search keeps_rules
    iset_valid-Durable key (some (pos i)) element =
        search (keeps_rules, mem_get-Durable, save-Durable, iset_target-Keeps)
    iset_valid-Durable key (some (negsuc i)) element = search keeps_rules

    pub list_iset-Durable : (args : List Bytes) → Keeps (Durable env) (list_iset env lib args)
    unfolding list_iset
    list_iset-Durable [] = search keeps_rules
    list_iset-Durable (key ∷ index ∷ element ∷ []) = search iset_valid-Durable
    list_iset-Durable _ = search keeps_rules

    pub list_get-Durable : (args : List Bytes) → Keeps (Durable env) (list_get env lib args)
    unfolding list_get
    list_get-Durable [] = search keeps_rules
    list_get-Durable (key ∷ []) = search (keeps_rules, mem_get-Durable, whole_list-Keeps)
    list_get-Durable (key ∷ index ∷ []) = search (keeps_rules, mem_get-Durable, list_element-Keeps)
    list_get-Durable _ = search keeps_rules

    pub list_len-Durable : (args : List Bytes) → Keeps (Durable env) (list_len env lib args)
    unfolding list_len
    list_len-Durable [] = search keeps_rules
    list_len-Durable (key ∷ []) = search (keeps_rules, mem_get-Durable, list_length-Keeps)
    list_len-Durable _ = search keeps_rules

    pop_more-Durable :
        (key : Bytes) (front : List (Value lib.Float)) (last : Value lib.Float)
        → Keeps (Durable env) (pop_more env lib key front last)
    pop_more-Durable key front null = search keeps_rules
    pop_more-Durable key front _ = search (keeps_rules, save-Durable)

    pop_elements-Durable :
        (key : Bytes) (vs : List (Value lib.Float))
        → Keeps (Durable env) (pop_elements env lib key vs)
    unfolding unsnoc
    pop_elements-Durable key [] = search keeps_rules
    pop_elements-Durable key (v ∷ []) = search (keeps_rules, remove-Durable)
    pop_elements-Durable key (v ∷ w ∷ vs) =
        let (front, last) = unsnoc v (w ∷ vs) in pop_more-Durable key front last

    pop_object-Durable :
        (key : Bytes) (o : Option Object) → Keeps (Durable env) (pop_object env lib key o)
    pop_object-Durable key none = search keeps_rules
    pop_object-Durable key (some obj) = search (keeps_rules, or_invalid-Keeps, pop_elements-Durable)

    pub list_pop-Durable : (args : List Bytes) → Keeps (Durable env) (list_pop env lib args)
    unfolding list_pop
    list_pop-Durable [] = search keeps_rules
    list_pop-Durable (key ∷ args) = search (keeps_rules, mem_get-Durable, pop_object-Durable)
