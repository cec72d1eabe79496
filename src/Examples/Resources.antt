-- ===== src/Examples/Resources.antt =====
-- A monitor, a lease and its release.
use agent_runtime.Prelude.{List, some, none, [], ◌∷◌, ◌≡◌, refl}
use agent_runtime.Prelude.Dict.{insert, lookup}
use agent_runtime.Resource.Types.{
  get, get_index, from_dict, llm_max_concurrent, memory_max_bytes, number, other_number, not_number,
  token_budget, other_key, class_index, llm_concurrency, memory, Amounts, RequestKey, RequestValue,
}
use agent_runtime.Resource.Monitor.{
  Monitor, Probe, new_monitor, acquire, lease_object, can_allocate,
}
use agent_runtime.Resource.Balance.{IsBalanced, new-IsBalanced}
use agent_runtime.Resource.Books.{acquire_denied}
use agent_runtime.Resource.History.{Reach, here, next, apply, ask, give_back, books_balance}

calm : Probe
calm = record { cpu_percent = 10; mem_percent = 10 }

monitor : Monitor
unfolding new_monitor
monitor =
    new_monitor 90 90 2
      (record { memory_bytes = 1000; token = 0; tool = 0; kv_cache = 0; network = 0 })

acquire_denied_example :
    (acquire calm 5 7 1 1 ((class_index llm_concurrency, 3) ∷ []) monitor).1 ≡ monitor
unfolding calm monitor acquire insert can_allocate get lookup get_index
acquire_denied_example =
    acquire_denied calm 5 7 1 1 ((class_index llm_concurrency, 3) ∷ []) monitor refl

abbrev items : List (RequestKey × RequestValue)
items =
    (llm_max_concurrent, number 1)
    ∷ (memory_max_bytes, number 400)
    ∷ (other_key 1, other_number)
    ∷ (token_budget, not_number)
    ∷ []

abbrev amounts : Amounts
amounts = (class_index llm_concurrency, 1) ∷ (class_index memory, 400) ∷ []

request_test : from_dict items ≡ some amounts
unfolding from_dict insert
request_test = refl

negative_test : from_dict ((token_budget, other_number) ∷ items) ≡ none
unfolding from_dict insert
negative_test = refl

leased : Monitor
leased = apply (ask calm 500 5 7 1 amounts) monitor

abbrev history : Reach monitor (apply (give_back 600 (lease_object 5)) leased)
unfolding leased monitor lookup
history =
    next (give_back 600 (lease_object 5))
      (next (ask calm 500 5 7 1 amounts) here (refl, (items, request_test))) tt

monitor-IsBalanced : IsBalanced monitor
unfolding monitor
monitor-IsBalanced =
    new-IsBalanced 90 90 2
      (record { memory_bytes = 1000; token = 0; tool = 0; kv_cache = 0; network = 0 })

books_balance_example : IsBalanced (apply (give_back 600 (lease_object 5)) leased)
books_balance_example = books_balance history monitor-IsBalanced
