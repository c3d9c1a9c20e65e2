-- ===== src/Labs/Bridge.antt =====
-- labs/lab8-rtsp-recover.cpp: the bridge from a producer's appsink to the appsrc of the viewers' media.
-- labs/lab6-rtsp-bridge.cpp has the same code on its `Profile`. A handler holds the lock, so it is one
-- step; the log lines are left out.
use camera_platform.Prelude.{ℕ, ◌+◌, ◌%◌, Bool, true, false, Option, none, some}
use camera_platform.Gst.{
  Gst, sample_caps, caps_replace, buffer_replace, app_src_caps, push_buffer, buffer_unref,
  buffer_copy, object_unref,
}
use camera_platform.Gst.Effects.{
  M, ◌>>=◌, ◌>>◌, pure, get, modify, branch, call, call_some, ask, ask_pointer,
}

-- `guint` counters; a pointer to caps or a buffer that is null is `none`.
pub record Bridge : Type 0 where
  pub appsrc : Option ℕ
  pub session : ℕ
  pub pushed : ℕ
  pub dropped : ℕ
  pub pushfail : ℕ
  pub caps_set : Bool
  pub last_caps : Option ℕ
  pub last_buf : Option ℕ

-- A static object is zero at first.
abbrev pub empty_bridge : Bridge
empty_bridge = record {
  appsrc = none;
  session = 0;
  pushed = 0;
  dropped = 0;
  pushfail = 0;
  caps_set = false;
  last_caps = none;
  last_buf = none;
}

-- `++` on a `guint`
abbrev pub bump : ℕ → ℕ
bump n = (n + 1) % 0x100000000

-- `bridge.pushed++` or `bridge.pushfail++`, by what the push returned
count_push : Bool → Bridge → Bridge
count_push true b = record b { pushed = bump b.pushed }
count_push false b = record b { pushfail = bump b.pushfail }

-- `if (!bridge.caps_set) { … }`
give_caps : ℕ → Option ℕ → M Bridge (Unit {0})
give_caps src caps = do
  b ← get
  branch b.caps_set (pure tt)
      (do call (app_src_caps src caps); modify (λ b. record b { caps_set = true }))

-- The buffer goes to the appsrc, or is dropped.
deliver : Gst → Option ℕ → ℕ → Option ℕ → M Bridge (Unit {0})
unfolding give_caps count_push
deliver g caps buffer none = do
  call (buffer_unref buffer)
  modify (λ b. record b { dropped = bump b.dropped })
deliver g caps buffer (some src) = do
  give_caps src caps
  ok ← ask g (push_buffer src buffer)
  modify (count_push ok)

-- What `on_producer_sample` does with the bridge for a sample and its copied buffer
unfoldable pub take_sample : Gst → ℕ → ℕ → M Bridge (Unit {0})
unfolding deliver give_caps count_push
take_sample g sample buffer = do
  caps ← ask_pointer g (sample_caps sample)
  b ← get
  call (caps_replace b.last_caps caps)
  modify (λ b. record b { last_caps = caps })
  call (buffer_replace b.last_buf (some buffer))
  modify (λ b. record b { last_buf = some buffer })
  deliver g caps buffer b.appsrc

-- `on_media_unprepared`
unfoldable pub unwire : M Bridge (Unit {0})
unwire = do b ← get; call_some object_unref b.appsrc; modify (λ b. record b { appsrc = none })

-- The copy of the last buffer, to the appsrc; on a null pointer the library does nothing.
push_copy : Option ℕ → Option ℕ → M Bridge (Unit {0})
push_copy none copy = pure tt
push_copy (some src) none = pure tt
push_copy (some src) (some copy) = call (push_buffer src copy)

-- `if (bridge.last_caps != NULL && bridge.last_buf != NULL) { … }`
preseed : Gst → Option ℕ → Option ℕ → Option ℕ → M Bridge (Unit {0})
unfolding push_copy
preseed g none buf appsrc = pure tt
preseed g (some caps) none appsrc = pure tt
preseed g (some caps) (some buf) appsrc = do
  call_some (λ s. app_src_caps s (some caps)) appsrc
  modify (λ b. record b { caps_set = true })
  copy ← ask_pointer g (buffer_copy buf)
  push_copy appsrc copy

-- What `on_media_configure` does with the bridge for the media's appsrc. The two programs reset the
-- counters differently; how is an argument.
unfoldable pub wire : Gst → (Bridge → Bridge) → Option ℕ → M Bridge (Unit {0})
unfolding preseed push_copy
wire g reset appsrc = do
  b ← get
  call_some object_unref b.appsrc
  modify (λ b. reset (record b { appsrc = appsrc; session = bump b.session; caps_set = false }))
  preseed g b.last_caps b.last_buf appsrc
