-- ===== src/Tests/Stores.antt =====
-- The store and the replay of records at concrete inputs.
use mathlib.Core.List.{lookup}
use mathlib.Core.Logic.{if_neg}
use easykafka_config_go.Prelude.{
  Option, ℕ, ◌≡◌, ◌+◌, ◌-◌, ◌%◌, refl, ◌↔◌, true, false, none, some, List, [], ◌∷◌, ℕ_discrete,
  length, arith, All, ◌==◌, ◌≢◌, if◌then◌else◌, Bool, ap, sym, ◌∙◌, any, ◌⊎◌,
}
use easykafka_config_go.Prelude.Words.{pos, word_mod, decrement}
use easykafka_config_go.Text.{is_blank, trim_space, trim_left, trim_left_reversed}
use easykafka_config_go.Codec.{tombstone_on_blank_payload}
use easykafka_config_go.Store
use easykafka_config_go.Store.{Store, new_store, len, get, get_or_nil, has, put_entry, remove_entry}
use easykafka_config_go.Store.Laws.{IsValid, UniqueKeys}
use easykafka_config_go.Store.Iterate.{Order, done, visit, all, snapshot}
use easykafka_config_go.Store.Iterate.Racing.{Reflects, LeftBy, entry, snapshot-Reflects}
use easykafka_config_go.Store.History.{touches, Write, write, erase, run, last_write, get-run}
use easykafka_config_go.Store.Concurrent.{
  Shared, Step, Reach, start, later, swapped, added, begin_put, begin_delete, Reach-len,
  overtaking_delete,
}
use easykafka_config_go.Registration.{apply_func, new_cell, rejected, final_key}
use easykafka_config_go.Registration.Replay.{
  write_of, replay, Compacted, finish, keep, drop_idle, drop_superseded, here, there, get-Compacted,
}
use easykafka_config_go.Registration.Accounting.{Accounts, total, replay-Accounts}
use easykafka_config_go.Registration.Emitted.Agreement.{
  by_own_key, disagrees, disagreements, replay-agreeing,
}
use easykafka_config_go.Binding.{Binding}
use easykafka_config_go.Driver.Event.{Record, eof, idle}
use easykafka_config_go.Detect.{Detection, begin, insert_all}
use easykafka_config_go.Detect.Laws.{ended, observe_all, observe_all_complete}
use easykafka_config_go.Tests.{
  byte_key, byte_value, show_key, prices, topic_records, record_of, both,
}

abbrev some_writes : List (Write ℕ ℕ)
some_writes = write 1 (some 5) ∷ write 2 none ∷ erase 1 ∷ write 1 (some 6) ∷ []

get-run_example :
    (get ℕ_discrete 2 (run ℕ_discrete some_writes new_store)
      ≡ last_write ℕ_discrete 2 some_writes (none, false))
    × (get_or_nil ℕ_discrete 2 (run ℕ_discrete some_writes new_store)
        ≡ (last_write ℕ_discrete 2 some_writes (none, false)).0)
    × (has ℕ_discrete 2 (run ℕ_discrete some_writes new_store)
        ≡ (last_write ℕ_discrete 2 some_writes (none, false)).1)
get-run_example = get-run ℕ_discrete some_writes 2

-- the last write to key 2 stored a nil pointer
last_write_stored_nil : last_write ℕ_discrete 2 some_writes (none, false) ≡ (none, true)
unfolding last_write ℕ_discrete
last_write_stored_nil = refl

abbrev fresh : Shared ℕ ℕ
fresh = record { store = new_store; adding = 0; removing = 0 }

-- a Put of key 1 that has run to its end
abbrev once_put : Shared ℕ ℕ
once_put =
    let begun = begin_put ℕ_discrete 1 (some 5) fresh in
    record begun { store = Store.add_one begun.store; adding = 0 }

once_put-Reach : Reach ℕ_discrete once_put
unfolding begin_put new_store ℕ_discrete lookup
once_put-Reach = later (later start (swapped 1 (some 5))) (added (omega arith))

Reach-len_example :
    IsValid ℕ_discrete once_put.store × (len once_put.store ≡ pos (length once_put.store.entries))
unfolding begin_put new_store ℕ_discrete put_entry lookup
Reach-len_example = Reach-len ℕ_discrete once_put-Reach refl refl (omega arith)

abbrev begun : Shared ℕ ℕ
begun = begin_put ℕ_discrete 2 (some 6) once_put

abbrev dropped : Shared ℕ ℕ
dropped = begin_delete ℕ_discrete 2 begun

abbrev over : Shared ℕ ℕ
over = record dropped { store = Store.sub_one dropped.store; removing = dropped.removing - 1 }

overtaking_delete_example :
    Step ℕ_discrete once_put begun
    × Step ℕ_discrete begun dropped
    × Step ℕ_discrete dropped over
    × (over.adding ≡ 1)
    × (over.removing ≡ 0)
    × (over.store.entries ≡ once_put.store.entries)
    × (over.store.size ≡ decrement once_put.store.size)
    × ((over.store.size + 1) % word_mod ≡ length over.store.entries % word_mod)
unfolding begin_put new_store ℕ_discrete put_entry lookup
overtaking_delete_example = overtaking_delete ℕ_discrete 2 (some 6) once_put-Reach refl refl refl

replay-Accounts_example :
    Accounts 6 (
      replay ℕ_discrete show_key true prices byte_key byte_value topic_records (new_cell new_store))
replay-Accounts_example =
    replay-Accounts ℕ_discrete show_key true prices byte_key byte_value topic_records new_store

-- key 1 written twice, and a record without effect
abbrev long_topic : List (Record × ℕ)
long_topic =
    (record_of (1 ∷ []) (65 ∷ []), 10)
    ∷ (record_of [] (69 ∷ []), 11)
    ∷ (record_of (1 ∷ []) (67 ∷ []), 12)
    ∷ []

abbrev short_topic : List (Record × ℕ)
short_topic = (record_of (1 ∷ []) (67 ∷ []), 12) ∷ []

long_topic-Compacted :
    Compacted ℕ_discrete show_key true prices byte_key byte_value long_topic short_topic
unfolding write_of ℕ_discrete tombstone_on_blank_payload is_blank trim_space trim_left
    trim_left_reversed rejected final_key
long_topic-Compacted =
    drop_superseded _ (write 1 (some 65)) refl (there (here (write 1 (some 67)) refl refl))
      (drop_idle _ refl (keep _ finish))

get-Compacted_example :
    Store.get ℕ_discrete 1
      (replay ℕ_discrete show_key true prices byte_key byte_value long_topic
        (new_cell new_store)).store
    ≡ Store.get ℕ_discrete 1
        (replay ℕ_discrete show_key true prices byte_key byte_value short_topic
          (new_cell new_store)).store
get-Compacted_example =
    get-Compacted ℕ_discrete show_key true prices byte_key byte_value long_topic-Compacted 1

abbrev both_assigned : Detection
both_assigned = record { remaining = insert_all both [] }

observe_all_complete_example :
    ((observe_all (eof 0 (pos 3) ∷ idle ∷ eof 1 (pos 2) ∷ []) (both_assigned, false)).1 ≡ true)
    ↔ All (λ p. ended p (eof 0 (pos 3) ∷ idle ∷ eof 1 (pos 2) ∷ []) ≡ true) both
unfolding begin
observe_all_complete_example =
    observe_all_complete both both_assigned (eof 0 (pos 3)) (idle ∷ eof 1 (pos 2) ∷ []) refl

abbrev two_entries : Store ℕ ℕ
two_entries = record { entries = (1, some 5) ∷ (2, none) ∷ []; size = 2 }

abbrev visited : List (ℕ × Option ℕ)
visited = (2, none) ∷ (1, some 5) ∷ []

-- the second entry visited first
two_entries-Order : Order two_entries.entries visited
two_entries-Order = visit ((1, some 5) ∷ []) (2, none) [] (visit [] (1, some 5) [] done)

two_entries-IsValid : IsValid ℕ_discrete two_entries
unfolding lookup ℕ_discrete
two_entries-IsValid = record { unique = (refl, (refl, tt)); counted = refl }

-- writes that go on while Range visits the entries of the store
abbrev racing : List (Write ℕ ℕ)
racing = erase 1 ∷ write 3 (some 9) ∷ []

-- key 1 seen before it is erased, and key 3 after it is written
abbrev raced : List (ℕ × Option ℕ)
raced = (1, some 5) ∷ (2, none) ∷ (3, some 9) ∷ []

raced_other :
    (q : ℕ) → q ≢ 1 → lookup ℕ_discrete q raced ≡ lookup ℕ_discrete q ((2, none) ∷ (3, some 9) ∷ [])
unfolding lookup
raced_other q other = rw (if_neg _ other) refl

raced-Reflects : Reflects ℕ_discrete two_entries racing raced
unfolding lookup ℕ_discrete run Store.put Store.delete
raced-Reflects = record {
  once = (refl, (refl, (refl, tt)));
  some_point = λ q. elim (ℕ_discrete q 1) [
    | yes e ↦ (
      [],
      racing,
      refl,
      ap (λ k. lookup ℕ_discrete k raced) e
          ∙ sym (ap (λ k. lookup ℕ_discrete k two_entries.entries) e),
    )
    | no other ↦ (racing, [], refl, raced_other q other)
  ];
}

-- a loop that stops at key 2
abbrev until_two : ℕ → Option ℕ → Bool
until_two k v = if k == 2 then false else true

snapshot-Reflects_example :
    UniqueKeys ℕ_discrete (snapshot ℕ_discrete raced)
    × LeftBy ℕ_discrete two_entries racing 1 (entry ℕ_discrete 1 (snapshot ℕ_discrete raced))
    × ((entry ℕ_discrete 1 (snapshot ℕ_discrete raced) ≡ get ℕ_discrete 1 two_entries)
        ⊎ (any (touches ℕ_discrete 1) racing ≡ true))
    × UniqueKeys ℕ_discrete (all until_two raced)
    × ((entry ℕ_discrete 1 (all until_two raced) ≡ (none, false))
        ⊎ LeftBy ℕ_discrete two_entries racing 1 (entry ℕ_discrete 1 (all until_two raced)))
snapshot-Reflects_example =
    snapshot-Reflects ℕ_discrete two_entries racing raced until_two 1 two_entries-IsValid
      raced-Reflects

-- the value as the key, which VerifyKeyAgreement compares with the record's own
abbrev keyed : Binding ℕ ℕ
keyed = record prices {
  key_from_value = some (λ v. elim v [ none ↦ 0 | some n ↦ n ]);
  verify_key_agreement = true;
}

-- two records whose keys are their values, and one whose key is not
abbrev agreeing_records : List (Record × ℕ)
agreeing_records = (record_of (65 ∷ []) (65 ∷ []), 10) ∷ (record_of (66 ∷ []) (66 ∷ []), 11) ∷ []

abbrev disagreeing_records : List (Record × ℕ)
disagreeing_records = (record_of (1 ∷ []) (65 ∷ []), 12) ∷ agreeing_records

-- the disagreement is there to be reported
one_disagrees :
    disagreements ℕ_discrete show_key true keyed byte_key byte_value disagreeing_records ≡ 1
unfolding disagreements disagrees tombstone_on_blank_payload is_blank ℕ_discrete final_key
one_disagrees = refl

replay-agreeing_example :
    (replay ℕ_discrete show_key true keyed byte_key byte_value agreeing_records
      (new_cell new_store)).store
    ≡ (replay ℕ_discrete show_key true
        (by_own_key keyed)
        byte_key
        byte_value
        agreeing_records
        (new_cell new_store)).store
unfolding replay total apply_func tombstone_on_blank_payload is_blank ℕ_discrete
replay-agreeing_example =
    replay-agreeing ℕ_discrete show_key true keyed byte_key byte_value agreeing_records
      (new_cell new_store) refl refl
