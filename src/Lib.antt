-- ===== src/Lib.antt =====
-- The camera capture driver of the MT8183 boards, camera/driver/cam: a V4L2 driver (mtk_cam.c) on top
-- of the pass 1 of the ISP (mtk_cam-hw.c), which a coprocessor, the composer, sets up frame by frame.
--
-- User space negotiates a pixel format for a video node, queues buffers, alone or in media requests,
-- and starts the nodes. Each request is a job: it waits on `pending_job_list`, moves to
-- `running_job_list` when it is numbered and given to the composer, at most three at a time, and leaves
-- when the interrupt reports its frame. The interrupt also returns the buffers of statistics and points
-- the hardware to the next command queue.
--
-- In front of it stands the sensor interface, camera/driver/seninf: its pads carry the formats, its
-- links select a sensor and a multiplexer, and starting it writes the registers of its receiver.
-- tools/bridge.c reads the frames that the driver captures and passes them on to a loopback device;
-- tools/sharpness.c scores a frame for the search of the focus.
--
-- Beside the drivers, gpu/tools/vk-present-sync-layer.c delays the presents of Vulkan programs until
-- they are drawn, and keeps a pace, and gpu/tools/egl-gbm-shim.c gives the driver's EGL the platform
-- that compositors ask for.
--
-- Which file models what:
--   Prelude           Boolean tests, 32-bit wrap-around, bits, lists with native lengths.
--   Uapi              names of the kernel, and the codes of camera/driver/cam/mtk-uapi-compat.h.
--   Format.Codes      get_pixel_bits, get_img_fmt, get_sensor_pixel_id, get_sensor_fmt,
--                     mtk_cam_fmt_to_mbus, mtk_cam_bayer_order of mtk_cam.c.
--   Format.Nodes      meta_fmts, stream_out_fmts, bin_out_fmts, output_queues, capture_queues.
--   Format.Negotiate  cal_image_pix_mp, find_fmt, load_default_fmt, try_fmt, s_fmt, enum_fmt,
--                     enum_framesizes.
--   Format.Config     config_img_fmt.
--   Format.Agree, Format.Stride, Format.Negotiated, Format.Enumerate, Format.Resize
--                     theorems on these.
--   Cam.State         struct mtk_cam_dev, mtk_isp_p1_device, mtk_cam_dev_request, mtk_cam_dev_buffer
--                     as one record, and the messages of mtk_cam-ipi.h.
--   Cam.Jobs          job_done, dequeue_req_frame, req_try_queue, req_cleanup, get_req, req_queue of
--                     mtk_cam.c; mtk_isp_req_enqueue, isp_tx_frame_worker of mtk_cam-hw.c.
--   Cam.Buffers       the vb2 operations of mtk_cam.c, dequeue_frame, enqueue_no_request, and
--                     mtk_isp_enqueue of mtk_cam-hw.c.
--   Cam.Irq           isp_irq_cam and its parts, isp_composer_handler of mtk_cam-hw.c.
--   Cam.Configure     init_stream and isp_config of mtk_cam.c.
--   Cam.Composer      the commands of mtk_cam-hw.c to the composer.
--   Cam.Stream        cio_stream_on and _off, s_stream, start_streaming,
--                     stop_streaming, link_setup of mtk_cam.c; mtk_isp_hw_init, mtk_isp_hw_release,
--                     isp_composer_init of mtk_cam-hw.c.
--   Cam.Session       mtk_cam_req_queue, and the steps of a session and of the device's
--                     history as relations.
--   Cam.Queueing, Cam.Completion, Cam.Dequeue, Cam.Returned, Cam.Capturing, Cam.Interrupt,
--   Cam.Addresses, Cam.Fresh, Cam.Starting, Cam.Stopping, Cam.Listed, Cam.Sessions,
--   Cam.Restarted, Cam.Histories
--                     theorems on these.
--   Seninf            camera/driver/seninf/mtk_seninf.c, the sensor interface in front of the camera:
--   Seninf.State, Seninf.Registers
--                     struct mtk_seninf with a register file, and the names of mtk_seninf_reg.h.
--   Seninf.Formats    seninf_set_fmt, seninf_get_fmt, seninf_link_setup, the bound sensors.
--   Seninf.Access, Seninf.Mux, Seninf.Dphy, Seninf.Power, Seninf.Pattern
--                     the register code as sequences of accesses, and how they run.
--   Seninf.Register   seninf_probe, mtk_seninf_media_register, seninf_parse_fwnode, seninf_remove.
--   Seninf.BitRun, Seninf.Ports, Seninf.Streaming, Seninf.Stopping, Seninf.Frame,
--   Seninf.Negotiated, Seninf.Reached, Seninf.Unwound
--                     theorems on these.
--   Bridge.Pixels, Bridge.Convert
--                     the conversion of a frame in tools/bridge.c.
--   Bridge.Loop       its start, and its loop with the ioctls of a round.
--   Bridge.Unpacked, Bridge.Range, Bridge.Blocks, Bridge.Written, Bridge.Reads, Bridge.Order,
--   Bridge.Kept       theorems on these.
--   Sharpness.Meter   tools/sharpness.c.
--   Sharpness.Window, Sharpness.Scaled
--                     theorems on it.
--   Present.State, Present.Pace, Present.Layer
--                     gpu/tools/vk-present-sync-layer.c: its variables, note_wait, trace_present and
--                     pace; create_device, destroy_device and queue_present.
--   Present.Chain     instance_chain, device_chain, create_instance, and create_device from its chain
--                     on; the version that is negotiated.
--   Present.Procs     get_device_proc, get_instance_proc, create_swapchain.
--   Present.Slots, Present.Paced, Present.Devices, Present.Linked
--                     theorems on these.
--   Egl.Shim          gpu/tools/egl-gbm-shim.c.
--   Egl.Advertised    theorems on it.
--   Graph.Register, Graph.Pads
--                     mtk_cam_v4l2_register, mtk_cam_video_register_device, mtk_cam_sd_set_fmt, the
--                     formats that are only read and the notifier's callbacks of mtk_cam.c.
--   Graph.Notifier    mtk_cam_v4l2_async_register, mtk_cam_dev_init and mtk_cam_dev_cleanup of
--                     mtk_cam.c.
--   Graph.Registered, Graph.Inited, Graph.Chain
--                     theorems on these, and on a format from the sensor interface to the nodes.
--   Hw.Probe          isp_setup_scp_rproc, isp_teardown_scp_rproc, mtk_isp_probe, mtk_isp_remove of
--                     mtk_cam-hw.c.
--   Hw.Power          mtk_isp_pm_suspend, mtk_isp_pm_resume and the run-time callbacks there.
--   Hw.Probed, Hw.Resumed
--                     theorems on these.
--   Format.Tests, Cam.Tests, Cam.Examples, Seninf.Tests, Bridge.Tests, Present.Tests,
--   Graph.Tests, Hw.Tests, Sharpness.Tests, Egl.Tests, Bridge.Runs
--                     runs on concrete inputs.
--
-- State and errors. Each part has one record for its state (`Cam`, `Seninf`, `Layer`, `Graph`,
-- `Device`, `P1Device`, `Loop`, `Shim`), and an operation is a function to the new state. The events
-- of the outside world (buffers given back, messages, memory freed, presents) are written to a log;
-- the registers of the sensor interface are a function of their address, and its register code is a
-- list of accesses. A result `none` of the
-- type `Run`, or of `Option` around a result, is undefined behaviour of the C code: an index
-- outside an array, a division by zero, `list_del` of an entry that is on no list. What the kernel,
-- the sensor, the hardware, the clock and the next layer answer is an argument (`Answers`,
-- `Inputs`); a theorem that assumes something of it says so. Each operation is one step, since the
-- code holds its locks around the lists: interleavings inside an operation are not modelled. A
-- request in memory is a value: the code keeps it on one list, and the composer's work reads only
-- its number and addresses, which do not change after that.
--
-- Bounds. 32-bit arithmetic wraps where the code's does (`u32`). Loops are recursion on the list they
-- walk or on the number of their rounds; there is no fuel.
--
-- Not modelled: the floating-point state of tools/bridge.c, which is a parameter, and the doubles of
-- tools/sharpness.c, whose sums are numbers; the queues of videobuf2, of which the driver's calls rely on
-- two things, that a buffer is handed over when its queue streams, and kept back until then; texts of
-- the log and of structures of the kernel; the tables that hand the functions to the kernel; a missing
-- work queue, but when a stream starts or stops. tools/cap.c is a sequence of ioctls, and each function
-- of gpu/tools/cros-mali-shim.c is a call of the C library, so there is nothing of their own to state.
pub mod Prelude
pub mod Uapi
pub mod Format
pub mod Cam
pub mod Seninf
pub mod Bridge
pub mod Present
pub mod Graph
pub mod Hw
pub mod Sharpness
pub mod Egl
