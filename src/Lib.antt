-- ===== src/Lib.antt =====
-- Drivers of the embedded system software course: the message queues of assignment1, the coffer of
-- assignment2, and the modules of the challenges and exercises, as definitions that can be run,
-- with what is proved of them.
--
-- The parts. A process uses the message queues through a library (assignment1/ku_ipc_lib.c), which calls
-- the driver (assignment1/ku_ipc.c) by `ioctl`; the driver keeps ten queues of messages and a counter of
-- users for each. The coffer is an application (assignment2/src/app/coffer_app.c) over three libraries
-- (assignment2/src/lib) and three drivers: the buttons and the distance sensor
-- (assignment2/src/driver/sensor/switch/switch.c), whose interrupts and tasklets fill a queue for each
-- process, the speaker and the step motor (assignment2/src/driver/actuator).
--
-- The files.
--   Base: lists, Boolean tests, C integers and strings over the native numbers.
--   Kernel, Libc: what the code uses of Linux and of the C library, which are not in the repository; both
--     are parameters with the documented behaviour as hypotheses, and an instance of each.
--   KuIpc: `msgget`, `msgclose`, `msgsnd`, `msgrcv`, `ioctl`, `init` and `exit` are the functions
--     ku_ipc_... of ku_ipc.c; a message is its 136 bytes. KuIpc/Client: the functions of ku_ipc_lib.c.
--     The other files below KuIpc have the lemmas: Volume and Message for the loop of `msgsnd` and the
--     copied buffer, Send and Receive for one call, Invariant and Safety for histories of calls,
--     Isolation, Protocol and Waiting for how calls fit together.
--   Switch: the functions of switch.c by their names, the three button handlers as `switch_irq_isr`;
--     Switch/Setup has `switch_init` and `switch_exit`, Switch/Events the histories: interrupts, runs of the
--     tasklets and calls as a sequence of steps.
--   Actuator: writes to pins and delays; Speaker, StepMotor: speaker.c and step_motor.c, as the lists of
--     what they write and how long they wait.
--   Coffer: the loops of coffer_app.c over the replies of the driver; Coffer/Devices: the libraries;
--     Coffer/Live: the application's calls on a driver that runs; Coffer/Presses: presses and echoes as
--     interrupts, from the pins to the lock.
--   MsgList, BlockingList: the message lists of basic_kernel_functions/challenge3/ch3_mod_201711395.c and
--     blocking_io/challenge4/ch4_mod_201711395.c, by their function names; a read that sleeps is two steps.
--   RcuList: synchronization/exercise3/simple_rculist.c. SimpleMotor: the loops of
--     sensor_and_actuator/exercise3/simple_motor.c; SimpleMotor/Degrees: those of
--     sensor_and_actuator/challenge10/ch10_201711395.c.
--   SpinBuffer: basic_kernel_functions/exercise2/simple_spin.c.
--   Rcu, RwLock: synchronization/exercise2/simple_rcu.c and synchronization/exercise1/simple_rwlock.c, as
--     the steps of any number of threads between their accesses to the shared variables.
--   WaitQueue, ExclusiveQueue: blocking_io/exercise1/simple_block_1.c and
--     blocking_io/exercise2/simple_block_2.c; a wait, its end, the access under the lock and a wake-up after it are steps.
--   Format: `%d` and `%s` of printf and scanf. SimpleProc: basic_kernel_functions/exercise3/simple_proc.c.
--     SensorProc: hw_event_handling/exercise3/sensor_proc.c.
--   MotionLight: hw_event_handling/challenge8/ch8_mod.c. SwitchLight: gpio/challenge7/ch7_mod.c.
--     UltraSensor: sensor_and_actuator/exercise1/simple_ultra.c.
--   WorkQueue: deferrable_functions/exercise3/simple_workqueue.c. Calculator:
--     character_device_drivers/challenge2/ch2_mod_201711395.c.
--   MsgList/Programs, BlockingList/Programs: the `main` functions of the writers and readers in the same
--     directories, as writer_main and reader_main, from what is typed to what is printed. KuIpc/Mailboxes: the
--     contents of a queue as a quotient; Order, Alike, Replies and Commute beside it: drivers with
--     the same contents, and sends that change places.
--   Scheduling: the `main` functions of cpu_scheduling (sched_fifo.c, sched_rr.c, sched_deadline.c,
--     affinity.c) as fifo_main, rr_main, deadline_main and affinity_main; the system calls are parameters.
--   SimpleSensor: hw_event_handling/exercise2/simple_sensor.c; an opening is two steps, as edges that the kernel kept while the
--     interrupt was disabled may come in between. SimpleTasklet, SimpleThread:
--     deferrable_functions/exercise1/simple_tasklet.c and exercise2/simple_kthread.c. SimpleSwitch, SimpleTimer:
--     gpio/exercise2/simple_switch.c and exercise3/simple_timer.c. SimpleSpeaker:
--     sensor_and_actuator/exercise2/simple_speaker.c and gpio/exercise1/simple_led.c. SimpleList:
--     basic_kernel_functions/exercise1/simple_linked_list.c. MyId: the modules of kernel_modules/challenge1 and
--     exercise3, and character_device_drivers/exercise3/simple_param.c with its program.
--   SpinBuffer/Programs, SyncApps, BlockApps, KuIpc/App, Calculator/App: the `main` functions of the programs in
--     the directories of those modules, and assignment1/ku_ipc_app.c.
--   A file called Tests has concrete runs and instances.
--
-- State and faults. A driver's state is a record and a call is a function to the reply and the next state;
-- a call holds the module's spin lock from its first access to its last, so that calls are steps, save for
-- a reader of BlockingList, who lets go of the lock to sleep, and the threads of Rcu, RwLock, WaitQueue and
-- ExclusiveQueue, which take turns inside their calls. `none` is a fault: an index out of an
-- array, a copy past a buffer, a null pointer, a string read past its buffer. An `int` is a `ℤ`, or its bit
-- pattern where only compared; an `int` counter or sum wraps at 2 ^ 32.
-- `long` has the width of the machine that each module was built for: 64 bits in assignment1, basic_kernel_functions,
-- character_device_drivers, kernel_modules, blocking_io and cpu_scheduling, and 32 bits, jiffies too, in assignment2, gpio,
-- hw_event_handling, sensor_and_actuator, deferrable_functions and synchronization.
--
-- Bounds and fuel. The waiting loops of the library run over a list of rounds, each with the calls that
-- others make meanwhile; when the rounds are over the function is still `waiting`. The main loop of the
-- coffer runs on fuel, and more fuel than there are replies is enough, since each round uses one up. The
-- fuel of a decimal number is its ten digits. The loop of `delay` runs on fuel; on a clock that moves on
-- within every `gap` readings, more than `gap` for each tick is enough.
--
-- Not modelled: printk where only a constant or the arguments are printed, the registration of devices beyond its
-- result, the sleeping of an allocation under a lock, pre-emption of a step on a second core; the modules and
-- programs that print and keep no state (kernel_modules/exercise1 and exercise2, cross_compile,
-- character_device_drivers/exercise1 and exercise2, hw_event_handling/exercise1, assignment1/temp.c); the copies
-- of a modelled main function in other directories. Generated files and build scripts have no model.
pub mod Actuator
pub mod Base
pub mod BlockApps
pub mod BlockingList
pub mod Calculator
pub mod Coffer
pub mod ExclusiveQueue
pub mod Format
pub mod Kernel
pub mod KuIpc
pub mod Libc
pub mod MotionLight
pub mod MsgList
pub mod MyId
pub mod Rcu
pub mod RcuList
pub mod RwLock
pub mod Scheduling
pub mod SensorProc
pub mod SimpleList
pub mod SimpleMotor
pub mod SimpleProc
pub mod SimpleSensor
pub mod SimpleSpeaker
pub mod SimpleSwitch
pub mod SimpleTasklet
pub mod SimpleThread
pub mod SimpleTimer
pub mod Speaker
pub mod SpinBuffer
pub mod StepMotor
pub mod Switch
pub mod SwitchLight
pub mod SyncApps
pub mod UltraSensor
pub mod WaitQueue
pub mod WorkQueue
