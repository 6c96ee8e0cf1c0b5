-- ===== src/Events/Examples.antt =====
-- Runs and instances for the steer channel.
use mathlib.Core.List.{Sublistᴰ}
use labmate.Common.{◌≡◌, refl, List, [], ◌∷◌, Text, codes, lookup, insert, remove, text_eq}
use labmate.Events.{RedisReply, Step, perform, write_steer, read_and_clear_steer}
use labmate.Events.Steers.{written, delivered, steer_is_delivered_once}

abbrev task : Text
task = codes "a"

abbrev busy_channel : List Step
busy_channel =
    Step.write RedisReply.served task (codes "stop")
    ∷ Step.write RedisReply.served (codes "b") (codes "other")
    ∷ Step.write RedisReply.lost task (codes "faster")
    ∷ Step.read RedisReply.refused task
    ∷ Step.read RedisReply.served task
    ∷ Step.read RedisReply.served task
    ∷ Step.write RedisReply.served task (codes "late")
    ∷ Step.expire task
    ∷ Step.read RedisReply.served task
    ∷ []

latest_steer_wins : delivered task [] busy_channel ≡ codes "faster" ∷ []
unfolding delivered text_eq read_and_clear_steer lookup perform write_steer insert remove
latest_steer_wins = refl

every_write_counts : written task busy_channel ≡ codes "stop" ∷ codes "faster" ∷ codes "late" ∷ []
unfolding written text_eq
every_write_counts = refl

steer_is_delivered_once_example :
    Sublistᴰ (delivered task [] busy_channel) (written task busy_channel)
unfolding lookup
steer_is_delivered_once_example = steer_is_delivered_once task [] busy_channel
