-- ===== src/Examples/Canvas.antt =====
-- The renderer at work.
use spanreed_netcode_proxy.Prelude.{
  ℕ, ◌*◌, ◌≡◌, refl, Option, none, some, List, [], ◌∷◌, arith, take, ◌++◌,
}
use spanreed_netcode_proxy.Log.{default_log_cb, wrap_log_fn}
use spanreed_netcode_proxy.Canvas.ArrayBuffer.{ArrayBuffer, new_array_buffer}
use spanreed_netcode_proxy.Canvas.Colors
use spanreed_netcode_proxy.Canvas.Geometry.{build_circle_vertex_buffer_data}
use spanreed_netcode_proxy.Canvas.Geometry.Fan.{
  build_circle_vertex_buffer_data-triangle, triangle_at, fan_triangle,
}
use spanreed_netcode_proxy.Canvas.Instances.{Instance, max_instance_count}
use spanreed_netcode_proxy.Canvas.Gl.{World, actions, bind_buffer, buffer_sub_data}
use spanreed_netcode_proxy.Canvas.Gl.Reports.{Reports}
use spanreed_netcode_proxy.Canvas.Program.{create_program, all_allocated, compile}
use spanreed_netcode_proxy.Canvas.Shader
use spanreed_netcode_proxy.Canvas.Buffers.{
  create_static_vertex_buffer, create_dynamic_vertex_buffer,
}
use spanreed_netcode_proxy.Canvas.Renderer.{
  DemoRenderer, create, returned, range_error, set_instances, circle_segment_count,
}
use spanreed_netcode_proxy.Canvas.Renderer.Creation.{create-Reports}
use spanreed_netcode_proxy.Canvas.Renderer.Upload.{
  ShowsAll, set_instances_shows, set_instances_throws,
}
use spanreed_netcode_proxy.Canvas.Frames.{
  Loop, Event, framed, updated, start, run, destroy, frame, update,
}
use spanreed_netcode_proxy.Canvas.Frames.Animation.{
  IsAnimating, run-start-IsAnimating, destroy_stops,
}
use spanreed_netcode_proxy.Canvas.Frames.Safety.{IsSafe, run-IsSafe}
use spanreed_netcode_proxy.Canvas.Component.{default_dot_state, mount, show_dots}
use spanreed_netcode_proxy.Canvas.Frames.Draws.{draws}
use spanreed_netcode_proxy.Canvas.Component.Shown.{IsShowing, mount-show_dots}
use spanreed_netcode_proxy.Examples.Samples.{whole, granting, new_world}

build_circle_vertex_buffer_data-triangle_example :
    triangle_at whole (build_circle_vertex_buffer_data whole 20) (6 * 7) ≡ fan_triangle whole 20 7
build_circle_vertex_buffer_data-triangle_example =
    build_circle_vertex_buffer_data-triangle whole 20 7 (omega arith)

abbrev made : Option ℕ × World
made =
    unfold create_program all_allocated compile actions in
    create_program granting default_log_cb "v" "f" new_world

create-Reports_example :
    Reports (wrap_log_fn "DemoRenderer" default_log_cb) (create whole granting default_log_cb)
create-Reports_example = create-Reports whole granting default_log_cb

all_of_create : Unit {0}
unfolding create Shader.create Shader.create_vao create_program all_allocated compile
    create_static_vertex_buffer create_dynamic_vertex_buffer actions
all_of_create = tt

abbrev renderer : DemoRenderer
renderer = record {
  raf = none;
  solid_shader = record {
    program = 2;
    attribs = record {
      vertex_position = some 0;
      shape_location = some 0;
      shape_radius = some 0;
      shape_color = some 0;
    };
    uniforms = record { canvas_size = 0 };
  };
  vao = 18;
  gpu_instance_buffer = 14;
  cpu_instance_buffer = new_array_buffer 3200;
  log = wrap_log_fn "DemoRenderer" default_log_cb;
  instance_ct = 0;
}

created : (create whole granting default_log_cb new_world).0 ≡ some renderer
unfolding all_of_create
created = refl

abbrev dot : ℕ → Instance whole
dot x = record { x = x; y = 200; radius = 20; color = Colors.red }

abbrev two_dots : List (Instance whole)
two_dots = dot 80 ∷ dot 140 ∷ []

abbrev ten_times : List (Instance whole) → List (Instance whole)
ten_times l = l ++ (l ++ (l ++ (l ++ (l ++ (l ++ (l ++ (l ++ (l ++ l))))))))

abbrev many_dots : List (Instance whole)
many_dots = dot 1 ∷ ten_times (ten_times two_dots)

set_instances_shows_example :
    (b : ArrayBuffer) × (set_instances whole two_dots renderer new_world ≡ (
      returned,
      record renderer { cpu_instance_buffer = b; instance_ct = 2 },
      record new_world {
        calls = bind_buffer none ∷ buffer_sub_data 0 b ∷ bind_buffer (some 14) ∷ [];
      },
    ))
    × ShowsAll whole b two_dots
    × (b.byte_length ≡ 16 * max_instance_count)
set_instances_shows_example =
    set_instances_shows whole two_dots renderer new_world refl (omega arith)

set_instances_throws_example :
    (b : ArrayBuffer) × (set_instances whole many_dots renderer new_world
      ≡ (range_error, record renderer { cpu_instance_buffer = b }, new_world))
    × ShowsAll whole b (take max_instance_count many_dots)
set_instances_throws_example =
    set_instances_throws whole many_dots renderer new_world refl (omega arith)

abbrev loop : Loop
loop = record { renderer = renderer; world = new_world; pending = [] }

abbrev events : List (Event whole)
events = updated two_dots ∷ framed 1 2 none ∷ updated many_dots ∷ framed 2 3 none ∷ []

run-start-IsAnimating_example : IsAnimating (run whole events (start 1 loop))
run-start-IsAnimating_example = run-start-IsAnimating whole 1 events loop refl

destroy_stops_example :
    let stopped = destroy (run whole events (start 1 loop)) in
    (stopped.pending ≡ []) × (frame 3 4 none stopped ≡ stopped)
destroy_stops_example = destroy_stops whole 1 events loop 3 4 none refl

run-IsSafe_example : IsSafe whole (run whole events loop)
run-IsSafe_example = run-IsSafe whole events loop (omega arith)

-- The world after the log line of the canvas.
abbrev mounting_world : World
mounting_world = record {
  calls = [];
  output = wrap_log_fn "DemoCanvas" default_log_cb "Creating new renderer!" none;
}

-- The canvas that has mounted with the frame 1 pending, when it is given two dots.
abbrev shown_loop : Loop
shown_loop = show_dots whole (some two_dots) (
    update whole (default_dot_state whole) (
      start 1 (record {
        renderer = renderer;
        world = (create whole granting default_log_cb mounting_world).1;
        pending = [];
      })))

mount-show_dots_example :
    IsShowing whole two_dots shown_loop
    × ((next : ℕ) (measured : Option (ℕ × ℕ))
        → draws (frame 1 next measured shown_loop).world.calls
          ≡ (0, circle_segment_count * 3, 2) ∷ draws shown_loop.world.calls)
unfolding mount all_of_create
mount-show_dots_example =
    mount-show_dots whole granting default_log_cb 1 new_world (some two_dots) refl (omega arith)
