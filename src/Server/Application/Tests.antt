-- ===== src/Server/Application/Tests.antt =====
-- `initialize` and `main` where every call succeeds.
use camera_platform.Prelude.{[], ◌∷◌, List, true, some, ◌≡◌, refl}
use camera_platform.Gst.{Gst, error_message}
use camera_platform.Gst.Observe.{event_source, GivenBack, quits}
use camera_platform.Gst.Effects.{branch}
use camera_platform.Gst.Plain.{plain_gst}
use camera_platform.Server.Application.{
  Application, bare, default_catalog, entry, new_application, disable_all, initialize,
  install_signal_handlers, on_context, watch_signal, wire, make_rtsp, attach_pipeline_events,
  attach_rtsp, attach_server, watch_bus, set_profile_enabled,
}
use camera_platform.Server.Application.Run.{
  Event, signalled, bus_message, media_configured, media_unprepared, new_sample, handle, main,
}
use camera_platform.Server.Application.Run.Release.{main-GivenBack}
use camera_platform.Server.Application.Run.Quit.{handle-quits}
use camera_platform.Server.Application.Wired.{IsReady, initialize_ok}
use camera_platform.Server.Host.{
  ProfileHost, new_host, set_video_source, setup_pipeline, with_source, build, create_elements,
  all_made, link_source, add_all, add_branches, add_branch, link_branch, finish_branches,
}
use camera_platform.Server.Bin.{create_element}
use camera_platform.Server.Bin
use camera_platform.Server.Host.Control
use camera_platform.Server.Host.Control.{
  attach_bus_watch, detach_bus_watch, attach_source, profiles,
}
use camera_platform.Server.Rtsp
use camera_platform.Server.Rtsp.{
  new_server, construct, add_mounts, add_mount, attach, create_source,
}

initialize_ok_example :
    let r = initialize plain_gst [] new_application [] in IsReady plain_gst r.1 r.2
unfolding initialize install_signal_handlers on_context watch_signal wire make_rtsp
    attach_pipeline_events attach_rtsp attach_server watch_bus new_application disable_all
    set_profile_enabled new_host set_video_source setup_pipeline with_source build create_elements
    all_made link_source add_all add_branches add_branch link_branch finish_branches create_element
    branch Bin.all_made Bin.set_drop attach_bus_watch detach_bus_watch Control.watch_bus
    Control.attach_source new_server construct add_mounts add_mount attach create_source
    Rtsp.attach_source default_catalog Control.set_profile_enabled Control.on_named entry
    Bin.set_state profiles
initialize_ok_example = initialize_ok plain_gst [] new_application [] refl

abbrev a_run : List Event
a_run = media_configured 0 7 ∷ new_sample 0 8 ∷ bus_message ∷ media_unprepared 0 7 ∷ signalled ∷ []

main-GivenBack_example :
    GivenBack plain_gst event_source [] (main plain_gst [] a_run new_application []).2
main-GivenBack_example = main-GivenBack plain_gst event_source [] a_run

abbrev failing_gst : Gst
failing_gst = record plain_gst { message_type = λ _. error_message }

abbrev watched_host : ProfileHost
unfolding new_host
watched_host = record (new_host []) {
  pipeline = some 1;
  is_linked = true;
  app_callback = some 1;
  bus_source = some 2;
}

abbrev running : Application
running = record (bare []) { host = watched_host; main_loop = some 3 }

handle-quits_example : quits (handle failing_gst bus_message running []).2 ≡ 1
unfolding quits watched_host
handle-quits_example = handle-quits failing_gst bus_message running []
