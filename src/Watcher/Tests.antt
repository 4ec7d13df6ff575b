-- ===== src/Watcher/Tests.antt =====
-- pkg/staticwatcher/watcher.go: a file that is created, walked and removed.
use accelerboat.Base.{◌≢◌, refl, false, none, List, [], ◌∷◌}
use accelerboat.Base.Text.{Text, codes}
use accelerboat.Store.{RedisStore}
use accelerboat.Store.Memory.{memory, Log, log_field}
use accelerboat.Watcher.{Signal, visit, create, remove, event, tick, watch_error, cancelled, watch}
use accelerboat.Watcher.Log.{Known, after, Reflects, watch-Reflects}

abbrev signals : List Signal
signals =
    event (codes "/t/ab.tar.gzip") create 1000
    ∷ tick ((visit (codes "/t/cd.tar.gzip") (codes "cd.tar.gzip") false ∷ []) ∷ [] ∷ []) 1060
    ∷ watch_error
    ∷ event (codes "/t/ab.tar.gzip") remove 1070
    ∷ cancelled
    ∷ event (codes "/t/ef.tar.gzip") create 1080
    ∷ []

abbrev empty_store : RedisStore Log
empty_store = record { address = codes "10.0.0.1"; server = []; local_cache = [] }

abbrev nothing : Known
nothing j = none

sets : (l k v : Text) (s : Log) → memory.hset l k v s ≢ none
sets l k v s e = cc

deletes : (l k : Text) (s : Log) → memory.hdel l k s ≢ none
deletes l k s e = cc

starts : Reflects memory (codes "10.0.0.1") [] nothing empty_store
unfolding log_field
starts = (refl, λ d. refl, λ d key ne. refl)

watch-Reflects_example :
    Reflects memory (codes "10.0.0.1") [] (after signals nothing) (watch memory signals empty_store)
watch-Reflects_example =
    watch-Reflects memory (codes "10.0.0.1") sets deletes [] signals nothing empty_store starts
